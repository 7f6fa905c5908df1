-- ===== src/WebReader/Guarded.antt =====
-- What every connection of a fetch satisfies (services/app/ai/web_reader.py).
use Prim.Native.String.{count}
use deep_foundry.Base.{
  ℕ, String, str_eq, eq_iff, Bool, true, false, Option, none, some, List, [], ◌∷◌, any, find, ltb,
  ◌==◌, ==_iff, All, ◌≡◌, refl, sym, ◌⊎◌, inl, inr, arith, Bool-cases,
}
use mathlib.Core.Path.{subst}
use deep_foundry.Base.Sorting.{find_sound}
use deep_foundry.WebReader.{
  SplitUrl, World, Target, WebPageError, ok, without_repeats, refuse_address, first_refused,
  preferred, unless_refused, choose_address, with_addresses, check_port, resolve_host, default_port,
  port_or, check_host, check_url, validated_target,
}

ok_inj : {A : Type 0} (x y : A) → ok x ≡ ok y → x ≡ y
ok_inj x y h = cc h

module _ (world : World) where
  abbrev pub IsGlobal : String → Type 0
  IsGlobal address = world.is_global address ≡ some true

  first_refused-none :
      (addresses : List String) → first_refused world addresses ≡ none → All IsGlobal addresses
  unfolding first_refused
  first_refused-none [] h = tt
  first_refused-none (a ∷ addresses) h =
      by_answer (first_refused-none addresses) (world.is_global a) refl h
    where
      by_answer :
          (first_refused world addresses ≡ none → All IsGlobal addresses)
          → (answer : Option Bool) → world.is_global a ≡ answer
          → refuse_address answer (first_refused world addresses) ≡ none
          → All IsGlobal (a ∷ addresses)
      by_answer rest none e k = cc k
      by_answer rest (some true) e k = (e, rest k)
      by_answer rest (some false) e k = cc k

  preferred-IsGlobal :
      (first : String) (rest : List String)
      → All IsGlobal (first ∷ rest)
      → IsGlobal (preferred first (find world.is_version_4 (first ∷ rest)))
  preferred-IsGlobal first rest h = by_found (find world.is_version_4 (first ∷ rest)) refl
    where
      by_found :
          (found : Option String)
          → find world.is_version_4 (first ∷ rest) ≡ found
          → IsGlobal (preferred first found)
      by_found none e = h.0
      by_found (some s) e = (find_sound world.is_version_4 IsGlobal (first ∷ rest) s e h).1

  -- A target that may be connected to: a global address, and the standard port of HTTP or HTTPS.
  pub record IsPublic (target : Target) : Type 0 where
    pub global : IsGlobal target.address
    pub standard :
        ((target.scheme ≡ "http") × (target.port ≡ 80))
        ⊎ ((target.scheme ≡ "https") × (target.port ≡ 443))

  -- The scheme and port that the checks let through.
  abbrev Standard : String → ℕ → Type 0
  Standard scheme port = ((scheme ≡ "http") × (port ≡ 80)) ⊎ ((scheme ≡ "https") × (port ≡ 443))

  choose_address-IsPublic :
      (url : SplitUrl) (hostname : String) (port : ℕ) (addresses : List String) (target : Target)
      → Standard (world.lower url.scheme) port
      → choose_address world url hostname port addresses ≡ ok target
      → IsPublic target
  choose_address-IsPublic url hostname port [] target s h = cc
  choose_address-IsPublic url hostname port (first ∷ rest) target s h =
      by_refusal (first_refused world (first ∷ rest)) refl h
    where
      chosen : Target
      chosen = record {
        scheme = world.lower url.scheme;
        hostname = hostname;
        address = preferred first (find world.is_version_4 (first ∷ rest));
        port = port;
      }

      by_refusal :
          (refusal : Option WebPageError)
          → first_refused world (first ∷ rest) ≡ refusal
          → unless_refused refusal chosen ≡ ok target
          → IsPublic target
      by_refusal (some e) q k = cc k
      by_refusal none q k = subst IsPublic (ok_inj chosen target k) (record {
        global = preferred-IsGlobal first rest (first_refused-none (first ∷ rest) q);
        standard = s;
      })

  with_addresses-IsPublic :
      (url : SplitUrl) (hostname : String) (port : ℕ) (found : Option (List String))
      (target : Target)
      → Standard (world.lower url.scheme) port
      → with_addresses world url hostname port found ≡ ok target
      → IsPublic target
  with_addresses-IsPublic url hostname port none target s h = cc
  with_addresses-IsPublic url hostname port (some addresses) target s h =
      choose_address-IsPublic url hostname port (without_repeats addresses) target s h

  resolve_host-IsPublic :
      (time : ℕ) (url : SplitUrl) (port : ℕ) (hostname : String) (ascii : Option String)
      (target : Target)
      → Standard (world.lower url.scheme) port
      → resolve_host world time url port hostname ascii ≡ ok target
      → IsPublic target
  resolve_host-IsPublic time url port hostname none target s h = cc
  resolve_host-IsPublic time url port hostname (some ascii) target s h =
      with_addresses-IsPublic url hostname port (world.getaddrinfo time ascii port) target s h

  check_port-IsPublic :
      (time : ℕ) (url : SplitUrl) (default : ℕ) (hostname : String) (port : Option (Option ℕ))
      (target : Target)
      → Standard (world.lower url.scheme) default
      → check_port world time url default hostname port ≡ ok target
      → IsPublic target
  check_port-IsPublic time url default hostname none target s h = cc
  check_port-IsPublic time url default hostname (some port) target s h =
      elim (Bool-cases (port_or default port == default)) [
        | inr f ↦ cc (rw f at h)
        | inl f ↦
            let same = (==_iff _ default).0 f in
            resolve_host-IsPublic time url _ hostname _ target
              (subst (Standard (world.lower url.scheme)) (sym same) s) (rw f at h)
      ]

  check_host-IsPublic :
      (time : ℕ) (url : SplitUrl) (host : Option String) (target : Target)
      → Standard (world.lower url.scheme) (default_port (world.lower url.scheme))
      → check_host world time url host ≡ ok target
      → IsPublic target
  check_host-IsPublic time url none target s h = cc
  check_host-IsPublic time url (some host) target s h =
      check_port-IsPublic time url _ (world.rstrip_dot host) url.port target s h

  default_port-Standard :
      (scheme : String)
      → any (str_eq scheme) ("http" ∷ "https" ∷ []) ≡ true
      → Standard scheme (default_port scheme)
  default_port-Standard scheme h = elim (Bool-cases (str_eq scheme "http")) [
    | inl e ↦
        let http : scheme ≡ "http" = ground (arith, eq_iff scheme "http") in
        rw http (inl (refl, refl))
    | inr e ↦
        let https : scheme ≡ "https" = ground (arith, eq_iff scheme "https") in
        rw https (inr (refl, refl))
  ]

  check_url-IsPublic :
      (time : ℕ) (url : SplitUrl) (target : Target)
      → check_url world time url ≡ ok target
      → IsPublic target
  check_url-IsPublic time url target h =
      elim (Bool-cases (any (str_eq (world.lower url.scheme)) ("http" ∷ "https" ∷ []))) [
        | inr e ↦ cc (rw e at h)
        | inl e ↦ elim (Bool-cases url.has_credentials) [
          | inl f ↦ cc (rw (e, f) at h)
          | inr f ↦
              check_host-IsPublic time url _ target
                (default_port-Standard (world.lower url.scheme) e) (rw (e, f) at h)
        ]
      ]

  pub validated_target-IsPublic :
      (time : ℕ) (url : String) (target : Target)
      → validated_target world time url ≡ ok target
      → IsPublic target
  unfolding validated_target
  validated_target-IsPublic time url target h = elim (Bool-cases (str_eq (world.strip url) "")) [
    | inl e ↦ cc (rw e at h)
    | inr e ↦ elim (Bool-cases (ltb 2048 (count (world.strip url)))) [
      | inl f ↦ cc (rw (e, f) at h)
      | inr f ↦ elim (Bool-cases (world.has_control (world.strip url))) [
        | inl g ↦ cc (rw (e, f, g) at h)
        | inr g ↦
            check_url-IsPublic time (world.urlsplit (world.strip url)) target (rw (e, f, g) at h)
      ]
    ]
  ]
