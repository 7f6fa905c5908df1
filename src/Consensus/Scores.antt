-- ===== src/Consensus/Scores.antt =====
-- The dict of scores that `finalize_consensus` builds, and the option that is alone at the top.
use deep_foundry.Base.{
  ℕ, ◌+◌, ◌≤◌, String, str_eq, eq_iff, eq_refl, Bool, true, false, Option, none, some, List, [],
  ◌∷◌, ◌≡◌, ◌≢◌, inl, inr, refl, arith, leb, any, keep, if◌then◌else◌, Bool-cases,
}
use deep_foundry.Base.Dict.{Dict, lookup, insert, get_or_default, lookup-insert}
use deep_foundry.Consensus.{Method, Vote}
use deep_foundry.Consensus.Tally.{weight, tally, highest}

-- The sum of the weights of the votes for an option, vote by vote.
unfoldable pub score : Method → String → List Vote → ℕ
score method option [] = 0
score method option (vote ∷ votes) =
    (if str_eq option vote.option then weight method vote else 0) + score method option votes

abbrev pub has_votes : String → List Vote → Bool
has_votes option votes = any (λ (v : Vote). str_eq option v.option) votes

-- The entry of an option in a dict of scores, once more votes are counted.
abbrev entry_after : Method → String → List Vote → Option ℕ → Option ℕ
entry_after method option votes before =
    if has_votes option votes
    then some (get_or_default 0 before + score method option votes)
    else before

score-unvoted :
    (method : Method) (option : String) (votes : List Vote)
    → has_votes option votes ≡ false
    → score method option votes ≡ 0
unfolding score
score-unvoted method option [] h = refl
score-unvoted method option (v ∷ votes) h = ground (arith, score-unvoted method option votes)

pub lookup-tally :
    (method : Method) (option : String) (votes : List Vote) (scores : Dict ℕ)
    → lookup option (tally method scores votes)
      ≡ entry_after method option votes (lookup option scores)
unfolding tally score
lookup-tally method option [] scores = refl
lookup-tally method option (v ∷ votes) scores =
    let added = get_or_default 0 (lookup v.option scores) + weight method v in
    ground (
      arith,
      eq_iff option v.option,
      lookup-tally method option votes (insert v.option added scores),
      lookup-insert v.option option added scores,
      score-unvoted method option votes,
    )

-- Every key of the dict occurs once.
abbrev pub IsDict : Dict ℕ → Type 0
IsDict [] = Unit
IsDict ((o, s) ∷ scores) = (lookup o scores ≡ none) × IsDict scores

insert-IsDict : (k : String) (s : ℕ) (d : Dict ℕ) → IsDict d → IsDict (insert k s d)
insert-IsDict k s [] h = (refl, tt)
insert-IsDict k s ((o, t) ∷ d) h = elim (Bool-cases (str_eq k o)) [
  | inl e ↦ rw e h
  | inr e ↦
      rw e (
        ground (arith, eq_iff k o, eq_iff o k, lookup-insert k o s d, h.0),
        insert-IsDict k s d h.1,
      )
]

pub tally-IsDict :
    (method : Method) (votes : List Vote) (d : Dict ℕ) → IsDict d → IsDict (tally method d votes)
unfolding tally
tally-IsDict method [] d h = h
tally-IsDict method (v ∷ votes) d h = tally-IsDict method votes _ (insert-IsDict v.option _ d h)

-- No entry is above the highest.
pub lookup-le-highest : (d : Dict ℕ) (o : String) (s : ℕ) → lookup o d ≡ some s → s ≤ highest d
lookup-le-highest [] o s e = cc
lookup-le-highest ((k, t) ∷ d) o s e = ground (arith, lookup-le-highest d o s)

-- What it means that exactly one entry of a dict passes a test.
module _ (p : String × ℕ → Bool) where
  keep-none :
      (d : Dict ℕ) (o : String) (t : ℕ) → keep p d ≡ [] → lookup o d ≡ some t → p (o, t) ≡ false
  keep-none [] o t e l = cc
  keep-none ((k, u) ∷ d) o t e l = elim (Bool-cases (p (k, u))) [
    | inl passes ↦ cc (rw passes at e)
    | inr fails ↦ elim (Bool-cases (str_eq o k)) [
      | inl same ↦ ground (arith, eq_iff o k)
      | inr other ↦ keep-none d o t (rw fails at e) (rw other at l)
    ]
  ]

  pub keep-single :
      (d : Dict ℕ) (w : String) (s : ℕ)
      → IsDict d
      → keep p d ≡ (w, s) ∷ []
      → (lookup w d ≡ some s) × (p (w, s) ≡ true)
  keep-single [] w s h e = cc
  keep-single ((k, u) ∷ d) w s h e = elim (Bool-cases (p (k, u))) [
    | inl passes ↦
        let e' : (k, u) ∷ keep p d ≡ (w, s) ∷ [] = rw passes at e in
        let kw : k ≡ w = ground arith in
        let us : u ≡ s = ground arith in rw (← kw, ← us) (rw (eq_refl k) refl, passes)
    | inr fails ↦
        let (found, passed) = keep-single d w s h.1 (rw fails at e) in
        ((ground (arith, eq_iff w k, found, h.0)), passed)
  ]

  pub keep-others :
      (d : Dict ℕ) (w o : String) (s t : ℕ)
      → IsDict d
      → keep p d ≡ (w, s) ∷ []
      → lookup o d ≡ some t
      → o ≢ w
      → p (o, t) ≡ false
  keep-others [] w o s t h e l ne = cc
  keep-others ((k, u) ∷ d) w o s t h e l ne = elim (Bool-cases (p (k, u))) [
    | inl passes ↦
        let e' : (k, u) ∷ keep p d ≡ (w, s) ∷ [] = rw passes at e in
        let kw : k ≡ w = ground arith in
        let rest : keep p d ≡ [] = ground arith in
        let l' : lookup o d ≡ some t = ground (arith, eq_iff o k, l) in keep-none d o t rest l'
    | inr fails ↦ elim (Bool-cases (str_eq o k)) [
      | inl same ↦ ground (arith, eq_iff o k, l)
      | inr other ↦ keep-others d w o s t h.1 (rw fails at e) (rw other at l) ne
    ]
  ]

  keep-nothing :
      (d : Dict ℕ)
      → IsDict d
      → ((o : String) (t : ℕ) → lookup o d ≡ some t → p (o, t) ≡ false)
      → keep p d ≡ []
  keep-nothing [] h f = refl
  keep-nothing ((k, u) ∷ d) h f =
      rw (f k u (rw (eq_refl k) refl))
        (keep-nothing d h.1 (λ o t l. f o t (ground (arith, eq_iff o k, h.0))))

  pub keep_unique :
      (d : Dict ℕ) (w : String) (s : ℕ)
      → IsDict d
      → lookup w d ≡ some s
      → p (w, s) ≡ true
      → ((o : String) (t : ℕ) → lookup o d ≡ some t → o ≢ w → p (o, t) ≡ false)
      → keep p d ≡ (w, s) ∷ []
  keep_unique [] w s h l passes f = cc
  keep_unique ((k, u) ∷ d) w s h l passes f = elim (Bool-cases (str_eq w k)) [
    | inl e ↦
        let wk : w ≡ k = (eq_iff w k).0 e in
        let us : u ≡ s = ground arith in
        let none_else : keep p d ≡ [] = keep-nothing d h.1 (λ o t m.
          f o t (ground (arith, eq_iff o k, h.0)) (λ same. clash k d o t h.0 m (cc (same, wk)))) in
        let here : p (k, u) ≡ true = rw (← wk, us) passes in rw (here, none_else) (cc (wk, us))
    | inr e ↦
        let other : p (k, u) ≡ false =
          f k u (rw (eq_refl k) refl) (λ same. ground (arith, eq_iff w k)) in
        rw other (
          keep_unique d w s h.1 (rw e at l) passes
            (λ o t m ne. f o t (ground (arith, eq_iff o k, h.0)) ne))
  ]
    where
      clash :
          (k : String) (d : Dict ℕ) (o : String) (t : ℕ)
          → lookup k d ≡ none
          → lookup o d ≡ some t
          → o ≢ k
      clash k d o t h m same = cc (rw same at m, h)

-- Some entry is the highest one.
pub highest-attained :
    (k : String) (u : ℕ) (d : Dict ℕ)
    → IsDict ((k, u) ∷ d)
    → (o : String) × (lookup o ((k, u) ∷ d) ≡ some (highest ((k, u) ∷ d)))
highest-attained k u [] h = (k, rw (eq_refl k) (ground arith))
highest-attained k u ((j, t) ∷ d) h = elim (Bool-cases (leb (highest ((j, t) ∷ d)) u)) [
  | inl e ↦ (k, rw (eq_refl k) (ground arith))
  | inr e ↦ let (o, l) = highest-attained j t d h.1 in (o, ground (arith, eq_iff o k, h.0, l))
]
