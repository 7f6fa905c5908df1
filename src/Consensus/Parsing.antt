-- ===== src/Consensus/Parsing.antt =====
-- What `_parse_vote` and `start_consensus_session` can produce.
use mathlib.Core.List.{Memᴰ}
use mathlib.Core.Path.{subst}
use deep_foundry.Base.{
  ℕ, ◌≤◌, String, str_eq, eq_iff, Bool, true, false, ◌||◌, Option, none, some, List, [], ◌∷◌, ◌≡◌,
  ◌≢◌, inl, inr, refl, arith, ltb, length, map, any, find, keep, All, Bool-cases,
}
use deep_foundry.Base.Int.{ℤ, pos}
use deep_foundry.Base.Sorting.{find_sound, All-Memᴰ, All-keep, All-map}
use deep_foundry.Json.{Json, object, le_number, get, text}
use deep_foundry.Json.{Fields}
use deep_foundry.Base.Dict.{get_or_default}
use deep_foundry.Policy.{Amount, finite, infinite, nan, decimal_of}
use deep_foundry.Consensus.{
  Python, vote, text_of, clamp, confidence_of, single, mentioned, or_else, option_of, with_option,
  with_confidence, parse_payload, parse_vote, started, start_consensus_session, Session, VoteTask,
  distinct_from, clean_options, with_method, method_of, vote_task, Method, SessionStatus,
}

-- A number between 0 and 1.
abbrev pub IsShare : ℤ × ℕ → Type 0
IsShare (m, p) = (le_number (pos 0) 0 m p ≡ true) × (le_number m p (pos 1) 0 ≡ true)

same-IsShare : (a c : ℤ × ℕ) → some a ≡ some c → IsShare a → IsShare c
same-IsShare a c h share = subst IsShare (cc h) share

clamp-IsShare : (a : Amount) (c : ℤ × ℕ) → clamp a ≡ some c → IsShare c
clamp-IsShare (finite m p) c h = elim (Bool-cases (le_number m p (pos 0) 0)) [
  | inl e ↦
      let h' : some (pos 0, 0) ≡ some c = rw e at h in same-IsShare (pos 0, 0) c h' (refl, refl)
  | inr above ↦ elim (Bool-cases (le_number (pos 1) 0 m p)) [
    | inl e ↦
        let h' : some (pos 1, 0) ≡ some c = rw (above, e) at h in
        same-IsShare (pos 1, 0) c h' (refl, refl)
    | inr below ↦
        let h' : some (m, p) ≡ some c = rw (above, below) at h in
        same-IsShare (m, p) c h' (ground arith, ground arith)
  ]
]
clamp-IsShare (infinite true) c h = same-IsShare (pos 0, 0) c h (refl, refl)
clamp-IsShare (infinite false) c h = same-IsShare (pos 1, 0) c h (refl, refl)
clamp-IsShare nan c h = cc

confidence_of-IsShare :
    (py : Python) (payload : Json) (c : ℤ × ℕ) → confidence_of py payload ≡ some c → IsShare c
confidence_of-IsShare py payload c h =
    clamp-IsShare
      (get_or_default (finite (pos 1) 0)
        (decimal_of py.decimal (get_or_default (text "1") (get "confidence" payload))))
      c h

listed : (p : String → Bool) (xs : List String) → All (λ x. Memᴰ x xs) (keep p xs)
listed p xs = All-keep p (λ x. Memᴰ x xs) xs (All-map _ _ xs (λ x m t. m) (All-Memᴰ xs))

single-at :
    (P : String → Type 0) (xs : List String) (x : String) → single xs ≡ some x → All P xs → P x
single-at P [] x h all_P = cc
single-at P (y ∷ []) x h all_P = subst P (cc h) all_P.0
single-at P (y ∷ z ∷ xs) x h all_P = cc

mentioned-listed :
    (py : Python) (options : List String) (raw x : String)
    → mentioned py options raw ≡ some x
    → Memᴰ x options
mentioned-listed py options raw x h = single-at _ _ x h (listed _ options)

option_of-listed :
    (py : Python) (options : List String) (payload : Json) (raw x : String)
    → option_of py options payload raw ≡ some x
    → Memᴰ x options
option_of-listed py options payload raw x h = chosen _ refl h
  where
    same : String → Bool
    same item =
        str_eq (py.casefold item)
          (py.casefold (py.strip (text_of py (get_or_default (text "") (get "option" payload)))))

    chosen :
        (first : Option String)
        → find same options ≡ first
        → or_else first (mentioned py options raw) ≡ some x
        → Memᴰ x options
    chosen none e k = mentioned-listed py options raw x k
    chosen (some y) e k =
        subst (λ z. Memᴰ z options) (cc k) (find_sound same _ options y e (All-Memᴰ options)).1

-- A vote that is read off a result is for one of the session's options, and its confidence is
-- between 0 and 1.
pub parse_vote_sound :
    (py : Python) (result : String) (options : List String) (option : String) (confidence : ℤ × ℕ)
    (rationale : String)
    → parse_vote py result options ≡ vote option confidence rationale
    → Memᴰ option options × IsShare confidence
unfolding parse_vote
parse_vote_sound py result options option confidence rationale h =
    of_payload (get_or_default (object Fields.end) (py.loads (py.unfence (py.strip result)))) h
  where
    share :
        (x why : String) (c : Option (ℤ × ℕ))
        → ((d : ℤ × ℕ) → c ≡ some d → IsShare d)
        → with_confidence x why c ≡ vote option confidence rationale
        → (x ≡ option) × IsShare confidence
    share x why none f k = cc
    share x why (some d) f k = (cc k, subst IsShare (cc k) (f d refl))

    of_option :
        (payload : Json) (raw : String) (chosen : Option String)
        → option_of py options payload raw ≡ chosen
        → with_option py payload raw chosen ≡ vote option confidence rationale
        → Memᴰ option options × IsShare confidence
    of_option payload raw none e k = cc
    of_option payload raw (some x) e k =
        let (same, fair) =
          share x (py.clip (text_of py (get_or_default (text raw) (get "rationale" payload))))
            (confidence_of py payload) (confidence_of-IsShare py payload) k in
        (subst (λ z. Memᴰ z options) same (option_of-listed py options payload raw x e), fair)

    of_payload :
        (payload : Json)
        → parse_payload py options (py.strip result) payload ≡ vote option confidence rationale
        → Memᴰ option options × IsShare confidence
    of_payload (object fields) k = of_option (object fields) (py.strip result) _ refl k
    of_payload _ k = cc

-- No text of the list occurs twice.
abbrev pub IsDistinct : List String → Type 0
IsDistinct [] = Unit
IsDistinct (x ∷ xs) = All (λ y. y ≢ x) xs × IsDistinct xs

abbrev IsNew : List String → String → Type 0
IsNew seen x = any (str_eq x) seen ≡ false

distinct_from_lem :
    (seen xs : List String)
    → IsDistinct (distinct_from seen xs) × All (IsNew seen) (distinct_from seen xs)
distinct_from_lem seen [] = (tt, tt)
distinct_from_lem seen (x ∷ xs) = elim (Bool-cases (any (str_eq x) seen)) [
  | inl e ↦ rw e (distinct_from_lem seen xs)
  | inr e ↦
      let (apart, fresh) = distinct_from_lem (x ∷ seen) xs in
      rw e (
        (
          All-map (IsNew (x ∷ seen)) (λ y. y ≢ x) _ (λ y f. ground (arith, eq_iff y x, f)) fresh,
          apart,
        ),
        (e, All-map (IsNew (x ∷ seen)) (IsNew seen) _ (λ y f. ground (arith, f)) fresh),
      )
]

-- What a session that was started has: a question, between 2 and 10 distinct options, no result
-- yet, and one pending task of its own for each of the team's members, of whom there are two at
-- least.
pub record IsStarted (id : ℕ) (members : List ℕ) (session : Session) (tasks : List VoteTask)
    : Type 0 where
  pub numbered : session.id ≡ id
  pub asked : session.question ≢ ""
  pub at_least_two : 2 ≤ length session.options
  pub at_most_ten : length session.options ≤ 10
  pub distinct_options : IsDistinct session.options
  pub collecting_votes : session.status ≡ SessionStatus.collecting
  pub members_vote : tasks ≡ map (vote_task id) members
  pub two_members : 2 ≤ length members

with_method-IsStarted :
    (id : ℕ) (question : String) (options : List String) (members : List ℕ) (method : Option Method)
    (session : Session) (tasks : List VoteTask)
    → question ≢ ""
    → 2 ≤ length options
    → length options ≤ 10
    → IsDistinct options
    → with_method id question options members method ≡ started session tasks
    → IsStarted id members session tasks
with_method-IsStarted id question options members none session tasks asked two ten apart h = cc
with_method-IsStarted id question options members (some m) session tasks asked two ten apart h =
    elim (Bool-cases (ltb (length members) 2)) [
      | inl e ↦ cc (rw e at h)
      | inr e ↦
          let fresh : Session = record {
            id = id;
            question = question;
            options = options;
            method = m;
            status = SessionStatus.collecting;
            result_option = "";
            completed_at = none;
          } in
          let h' : started fresh (map (vote_task id) members) ≡ started session tasks = rw e at h in
          let sessions : fresh ≡ session = cc h' in
          let rows : map (vote_task id) members ≡ tasks = cc h' in
          subst (λ s. IsStarted id members s tasks) sessions
            (subst (λ t. IsStarted id members fresh t) rows
              (record {
                numbered = refl;
                asked = asked;
                at_least_two = two;
                at_most_ten = ten;
                distinct_options = apart;
                collecting_votes = refl;
                members_vote = refl;
                two_members = ground arith;
              }))
    ]

-- A consensus session that starts is well formed, and only a member of the workspace starts one.
pub start_consensus_session-IsStarted :
    (py : Python) (is_member : Bool) (id : ℕ) (members : List ℕ) (question : String)
    (options : List Json) (method : String) (session : Session) (tasks : List VoteTask)
    → start_consensus_session py is_member id members question options method
      ≡ started session tasks
    → (is_member ≡ true) × IsStarted id members session tasks
unfolding start_consensus_session
start_consensus_session-IsStarted py is_member id members question options method session tasks h =
    elim (Bool-cases is_member) [
      | inr e ↦ cc (rw e at h)
      | inl member ↦ elim (Bool-cases (str_eq (py.strip question) "")) [
        | inl e ↦ cc (rw (member, e) at h)
        | inr asked ↦ elim (Bool-cases (ltb (length clean) 2 || ltb 10 (length clean))) [
          | inl e ↦ cc (rw (member, asked, e) at h)
          | inr fits ↦ (
            member,
            with_method-IsStarted id (py.strip question) clean members (method_of method) session
                tasks (λ e. ground (arith, eq_iff (py.strip question) "")) (ground arith)
                (ground arith) (distinct_from_lem [] _).0 (rw (member, asked, fits) at h),
          )
        ]
      ]
    ]
  where
    clean : List String
    clean = clean_options py options
