-- ===== src/WebReader/Connections.antt =====
-- The connections of a fetch, whatever the network answers (services/app/ai/web_reader.py).
use Prim.Native.String.{count}
use text.Mathlib.TextLemmas.{length-append as count-append}
use deep_foundry.Base.{
  ◌||◌, ℕ, zero, suc, ◌+◌, ◌≤◌, String, Bool, true, false, Option, none, some, List, [], ◌∷◌, ltb,
  All, length, ◌≡◌, refl, inl, inr, arith, Bool-cases,
}
use mathlib.Core.Path.{subst}
use deep_foundry.Base.Dict.{lookup}
use deep_foundry.Base.Text.{append_text}
use deep_foundry.WebReader.{
  Target, WebPageError, Checked, ok, error, validated_target, blocked_by_domain_policy,
}
use deep_foundry.WebReader.Fetch.{
  Connection, PageAnswer, Net, chunk_before, read_chunks, announces_more, with_body, read_answer,
  request_target, request_once, is_redirect, is_accepted, is_downgrade, check_redirect, Resource,
  given_location, Pass, take_location, is_identity, is_allowed_type, take_resource, take_page, pass,
  more, redirect_to, end_pass, follow_pass, fetch_from, fetch_public_resource,
}
use deep_foundry.WebReader.Guarded.{IsPublic, validated_target-IsPublic}

read_chunks-le :
    (limit total : ℕ) (chunks : List (Bool × String)) (body : String)
    → total ≤ limit
    → read_chunks limit total chunks ≡ ok body
    → total + count body ≤ limit
unfolding read_chunks
read_chunks-le limit total [] body le h =
    let same : "" ≡ body = cc h in subst (λ b. total + count b ≤ limit) same (omega (arith, le))
read_chunks-le limit total ((true, chunk) ∷ chunks) body le h = cc h
read_chunks-le limit total ((false, chunk) ∷ chunks) body le h =
    elim (Bool-cases (ltb limit (total + count chunk))) [
      | inl e ↦ cc (rw e at h)
      | inr e ↦
          by_rest (read_chunks limit (total + count chunk) chunks)
            (λ rest q. read_chunks-le limit (total + count chunk) chunks rest (ground (arith, e)) q)
            (rw e at h)
    ]
  where
    by_rest :
        (result : Checked String)
        → ((rest : String) → result ≡ ok rest → total + count chunk + count rest ≤ limit)
        → chunk_before chunk result ≡ ok body
        → total + count body ≤ limit
    by_rest (error e) ih k = cc k
    by_rest (ok rest) ih k =
        let same : append_text chunk rest ≡ body = cc k in
        subst (λ b. total + count b ≤ limit) same
          (omega (arith, ih rest refl, count-append chunk rest))

module _ (net : Net) where
  -- The target of a connection is public, and no rule of the policy blocks its URL.
  pub record IsGuarded (c : Connection) : Type 0 where
    pub public : IsPublic net.world c.target
    pub unblocked : blocked_by_domain_policy net.world net.host_of c.url net.blocked_domains ≡ false

  -- What is returned is no longer than the limit.
  abbrev pub IsBounded : Checked Resource → Type 0
  IsBounded (error e) = Unit
  IsBounded (ok resource) = count resource.body ≤ net.max_bytes

  abbrev IsBoundedPass : Pass → Type 0
  IsBoundedPass (Pass.finished result) = IsBounded result
  IsBoundedPass (Pass.redirected location) = Unit

  abbrev IsBoundedAnswer : Checked (PageAnswer × String) → Type 0
  IsBoundedAnswer (error e) = Unit
  IsBoundedAnswer (ok (answer, body)) = count body ≤ net.max_bytes

  -- One pass opens no connection and ends with an error, or opens one to the URL.
  data PassIs (url : String) : List Connection × Pass → Type 0 where
    unopened : (e : WebPageError) → PassIs url ([], Pass.finished (error e))
    opened :
        (c : Connection) (end : Pass)
        → c.url ≡ url
        → IsGuarded c
        → IsBoundedPass end
        → PassIs url (c ∷ [], end)

  read_answer-IsBounded :
      (answer : Option PageAnswer) → IsBoundedAnswer (read_answer net.max_bytes answer)
  read_answer-IsBounded none = tt
  read_answer-IsBounded (some answer) =
      elim (Bool-cases (announces_more net.max_bytes answer.announced)) [
        | inl e ↦ rw e tt
        | inr e ↦ rw e (by_body (read_chunks net.max_bytes 0 answer.chunks) refl)
      ]
    where
      by_body :
          (body : Checked String)
          → read_chunks net.max_bytes 0 answer.chunks ≡ body
          → IsBoundedAnswer (with_body answer body)
      by_body (error e) q = tt
      by_body (ok body) q =
          omega (arith, read_chunks-le net.max_bytes 0 answer.chunks body (omega arith) q)

  take_location-IsBounded : (location : Option String) → IsBoundedPass (take_location location)
  take_location-IsBounded none = tt
  take_location-IsBounded (some s) = tt

  take_resource-IsBounded :
      (url : String) (answer : PageAnswer) (body : String)
      → count body ≤ net.max_bytes
      → IsBoundedPass (take_resource net url answer body)
  take_resource-IsBounded url answer body h = elim (Bool-cases (is_identity net answer)) [
    | inr e ↦ rw e tt
    | inl e ↦ elim (Bool-cases (is_allowed_type net answer)) [
      | inl f ↦ rw (e, f) h
      | inr f ↦ rw (e, f) tt
    ]
  ]

  take_page-IsBounded :
      (url : String) (answer : Checked (PageAnswer × String))
      → IsBoundedAnswer answer
      → IsBoundedPass (take_page net url answer)
  take_page-IsBounded url (error e) h = tt
  take_page-IsBounded url (ok (answer, body)) h = elim (Bool-cases (is_redirect answer.status)) [
    | inl e ↦ rw e (take_location-IsBounded (given_location (lookup "location" answer.headers)))
    | inr e ↦ elim (Bool-cases (is_accepted net answer.status)) [
      | inl f ↦ rw (e, f) (take_resource-IsBounded url answer body h)
      | inr f ↦ rw (e, f) tt
    ]
  ]

  request-PassIs :
      (time : ℕ) (url : String) (target : Checked Target)
      → validated_target net.world time url ≡ target
      → blocked_by_domain_policy net.world net.host_of url net.blocked_domains ≡ false
      → let result = request_target net time url target in
        PassIs url (result.0, take_page net url result.1)
  request-PassIs time url (error e) valid free = PassIs.unopened e
  request-PassIs time url (ok target) valid free = elim (Bool-cases (net.late time)) [
    | inl e ↦ rw e (PassIs.unopened _)
    | inr e ↦ rw e (
        PassIs.opened _ _ refl
          (record {
            public = validated_target-IsPublic net.world time url target valid;
            unblocked = free;
          })
          (take_page-IsBounded url _ (read_answer-IsBounded (net.respond time target))))
  ]

  pass-PassIs : (time : ℕ) (url : String) → PassIs url (pass net time url)
  unfolding pass request_once
  pass-PassIs time url = elim (Bool-cases (net.late time)) [
    | inl e ↦ rw e (PassIs.unopened _)
    | inr e ↦
        elim (Bool-cases (blocked_by_domain_policy net.world net.host_of url net.blocked_domains)) [
          | inl f ↦ rw (e, f) (PassIs.unopened _)
          | inr f ↦ rw (e, f) (request-PassIs (suc time) url _ refl f)
        ]
  ]

  -- No connection of a list goes down from HTTPS to HTTP, beginning at a URL.
  abbrev pub Follows : String → List Connection → Type 0
  Follows from [] = Unit
  Follows from (c ∷ cs) = (is_downgrade net.world from c.url ≡ false) × Follows c.url cs

  abbrev pub Begins : String → List Connection → Type 0
  Begins url [] = Unit
  Begins url (c ∷ cs) = (c.url ≡ url) × Follows c.url cs

  abbrev pub IsSafeFetch : ℕ → String → List Connection × Checked Resource → Type 0
  IsSafeFetch left url (log, result) =
      All IsGuarded log × Begins url log × (length log ≤ suc left) × IsBounded result

  Follows-Begins :
      (from to : String) (log : List Connection)
      → is_downgrade net.world from to ≡ false
      → Begins to log
      → Follows from log
  Follows-Begins from to [] kept h = tt
  Follows-Begins from to (c ∷ cs) kept (same, h) = (rw same kept, h)

  redirect-kept :
      (time : ℕ) (from to : String)
      → check_redirect net time from to ≡ none
      → is_downgrade net.world from to ≡ false
  redirect-kept time from to h = elim (Bool-cases (is_downgrade net.world from to)) [
    | inl e ↦ cc (rw e at h)
    | inr e ↦ e
  ]

  redirect_to-IsSafeFetch :
      (left : ℕ) (c : Connection) (from to : String) (refusal : Option WebPageError)
      (next : List Connection × Checked Resource)
      → c.url ≡ from
      → IsGuarded c
      → (refusal ≡ none → is_downgrade net.world from to ≡ false)
      → IsSafeFetch left to next
      → IsSafeFetch (suc left) from (more (c ∷ []) (redirect_to refusal next))
  redirect_to-IsSafeFetch left c from to (some e) next same guarded kept h =
      ((guarded, tt), (same, tt), omega arith, tt)
  redirect_to-IsSafeFetch left c from to none next same guarded kept (all, begins, short, bounded) =
      (
        (guarded, all),
        (same, rw same (Follows-Begins from to next.0 (kept refl) begins)),
        omega (arith, short),
        bounded,
      )

  follow_pass-IsSafeFetch :
      (left time : ℕ) (url : String) (next : String → List Connection × Checked Resource)
      (result : List Connection × Pass)
      → PassIs url result
      → ((to : String) → IsSafeFetch left to (next to))
      → IsSafeFetch (suc left) url (more result.0 (follow_pass next net time url result.1))
  follow_pass-IsSafeFetch left time url next result (PassIs.unopened e) h =
      (tt, tt, omega arith, tt)
  follow_pass-IsSafeFetch left time url next result
        (PassIs.opened c (Pass.finished end) same guarded bounded) h =
      ((guarded, tt), (same, tt), omega arith, bounded)
  follow_pass-IsSafeFetch left time url next result
        (PassIs.opened c (Pass.redirected location) same guarded bounded) h =
      let to = net.world.urljoin url location in
      redirect_to-IsSafeFetch left c url to (check_redirect net (time + 2) url to) (next to) same
        guarded (redirect-kept (time + 2) url to) (h to)

  end_pass-IsSafeFetch :
      (url : String) (result : List Connection × Pass)
      → PassIs url result
      → IsSafeFetch 0 url (result.0, end_pass result.1)
  end_pass-IsSafeFetch url result (PassIs.unopened e) = (tt, tt, omega arith, tt)
  end_pass-IsSafeFetch url result (PassIs.opened c (Pass.finished end) same guarded bounded) =
      ((guarded, tt), (same, tt), omega arith, bounded)
  end_pass-IsSafeFetch url result (PassIs.opened c (Pass.redirected location) same guarded b) =
      ((guarded, tt), (same, tt), omega arith, tt)

  fetch_from-IsSafeFetch :
      (left time : ℕ) (url : String) → IsSafeFetch left url (fetch_from left net time url)
  unfolding fetch_from
  fetch_from-IsSafeFetch zero time url =
      end_pass-IsSafeFetch url (pass net time url) (pass-PassIs time url)
  fetch_from-IsSafeFetch (suc left) time url =
      follow_pass-IsSafeFetch left time url (λ to. fetch_from left net (time + 3) to)
        (pass net time url) (pass-PassIs time url) (λ to. fetch_from-IsSafeFetch left (time + 3) to)

  -- However names resolve and whatever the peers answer, a fetch of a URL connects at most once more
  -- than the redirects it may follow; every connection is to a global address at the standard port of
  -- HTTP or HTTPS, for a URL that no rule of the policy blocks, the first for the URL itself; none
  -- follows an HTTPS URL with an HTTP one; and a returned body is no longer than the limit.
  pub fetch_public_resource-IsSafeFetch :
      (url : String)
      → IsSafeFetch net.max_redirects (net.world.strip url) (fetch_public_resource net url)
  unfolding fetch_public_resource
  fetch_public_resource-IsSafeFetch url =
      elim (Bool-cases (ltb net.max_bytes 1 || ltb net.document_bytes net.max_bytes)) [
        | inl e ↦ rw e (tt, tt, omega arith, tt)
        | inr e ↦ rw e (fetch_from-IsSafeFetch net.max_redirects 0 (net.world.strip url))
      ]
