-- ===== src/Consensus/Laws.antt =====
-- Which option `finalize_consensus` decides for.
use mathlib.Core.Path.{subst}
use deep_foundry.Base.{
  ℕ, ◌*◌, ◌<◌, ◌≤◌, String, str_eq, eq_iff, eq_refl, Bool, true, false, ◌&&◌, some, List, [], ◌∷◌,
  ◌≡◌, ◌≢◌, ◌↔◌, inl, inr, refl, arith, ◌==◌, ltb, keep, All, Bool-cases, length, map, sym, ◌∙◌,
}
use deep_foundry.Base.Dict.{Dict, lookup}
use deep_foundry.Consensus.{
  Method, majority, unanimous, confidence_weighted, SessionStatus, Session, VoteTask, Vote,
  distinct, distinct_from,
}
use deep_foundry.Consensus.Tally.{
  tally, highest, only, winner_of, scored_winner, winner, finished_tasks, finalize_consensus,
}
use deep_foundry.Consensus.Scores.{
  score, has_votes, lookup-tally, IsDict, tally-IsDict, lookup-le-highest, keep-single, keep-others,
  keep_unique, highest-attained,
}

-- The option has votes, and a higher score than every other option that has.
abbrev pub Leads : Method → List Vote → String → Type 0
Leads method votes w =
    (has_votes w votes ≡ true)
    × ((o : String)
        → has_votes o votes ≡ true
        → o ≢ w
        → score method o votes < score method w votes)

-- What a dict of scores says of its winner.
abbrev Tops : Dict ℕ → String → Type 0
Tops d w =
    (s : ℕ) × (lookup w d ≡ some s) × ((o : String) (t : ℕ) → lookup o d ≡ some t → o ≢ w → t < s)

abbrev at_top : Dict ℕ → String × ℕ → Bool
at_top d e = e.1 == highest d

only_lem : (d : Dict ℕ) (w : String) → only d ≡ w → w ≢ "" → (s : ℕ) × (d ≡ (w, s) ∷ [])
only_lem [] w e ne = absurd (ne (cc e))
only_lem ((o, s) ∷ []) w e ne = (s, cc e)
only_lem ((o, s) ∷ (p, t) ∷ d) w e ne = absurd (ne (cc e))

winner_of-Tops : (d : Dict ℕ) (w : String) → IsDict d → w ≢ "" → winner_of d ≡ w → Tops d w
unfolding winner_of
winner_of-Tops d w h ne e =
    let (s, single) = only_lem (keep (at_top d) d) w e ne in
    let (found, top) = keep-single (at_top d) d w s h single in
    (
      s,
      found,
      λ o t l other. ground (
        arith,
        keep-others (at_top d) d w o s t h single l other,
        top,
        lookup-le-highest d o t l,
      ),
    )

Tops-winner_of : (d : Dict ℕ) (w : String) → IsDict d → Tops d w → winner_of d ≡ w
unfolding winner_of
Tops-winner_of [] w h (s, l, f) = cc
Tops-winner_of ((k, u) ∷ d) w h (s, l, f) =
    let scores = (k, u) ∷ d in
    let (o, m) = highest-attained k u d h in
    let below = lookup-le-highest scores w s l in
    let top : s ≡ highest scores = elim (Bool-cases (str_eq o w)) [
      | inl e ↦ ground (arith, eq_iff o w, l, m)
      | inr e ↦ ground (arith, eq_iff o w, f o (highest scores) m, below)
    ] in
    rw
      (keep_unique (at_top scores) scores w s h l (ground arith)
        (λ o' t m' ne. ground (arith, f o' t m' ne)))
      refl

tallied :
    (method : Method) (votes : List Vote) (o : String)
    → has_votes o votes ≡ true
    → lookup o (tally method [] votes) ≡ some (score method o votes)
tallied method votes o h = ground (arith, lookup-tally method o votes [])

untallied :
    (method : Method) (votes : List Vote) (o : String) (t : ℕ)
    → lookup o (tally method [] votes) ≡ some t
    → (has_votes o votes ≡ true) × (t ≡ score method o votes)
untallied method votes o t h = ground (arith, lookup-tally method o votes [])

Tops-Leads :
    (method : Method) (votes : List Vote) (w : String)
    → Tops (tally method [] votes) w ↔ Leads method votes w
Tops-Leads method votes w = (
  λ (s, l, f).
      let (voted, same) = untallied method votes w s l in
      (
        voted,
        λ o h ne. ground (arith, f o (score method o votes) (tallied method votes o h) ne, same),
      ),
  λ (voted, f). (
    score method w votes,
    tallied method votes w voted,
    λ o t l ne. let (has, same) = untallied method votes o t l in ground (arith, f o has ne, same),
  ),
)

-- Each text of a list is this one exactly when no other is found in it.
distinct_from-eq-empty :
    (o : String) (xs : List String) → (length (distinct_from (o ∷ []) xs) ≡ 0) ↔ All (λ x. x ≡ o) xs
distinct_from-eq-empty o [] = ((λ h. tt), λ h. refl)
distinct_from-eq-empty o (x ∷ xs) = elim (Bool-cases (str_eq x o)) [
  | inl e ↦
      let same : x ≡ o = (eq_iff x o).0 e in
      rw e
        ((λ h. (same, (distinct_from-eq-empty o xs).0 h)), λ h. (distinct_from-eq-empty o xs).1 h.1)
  | inr e ↦ rw e ((λ h. absurd (omega (arith, h))), λ h. ground (arith, eq_iff x o, h.0))
]

options_of :
    (w : String) (votes : List Vote)
    → All (λ x. x ≡ w) (map (λ v. v.option) votes) ↔ All (λ (v : Vote). v.option ≡ w) votes
options_of w [] = ((λ h. h), λ h. h)
options_of w (v ∷ votes) =
    ((λ h. (h.0, (options_of w votes).0 h.1)), λ h. (h.0, (options_of w votes).1 h.1))

-- What an option needs in order to be decided: under the unanimous method the vote of every member,
-- otherwise votes of more than half of them and a higher score than any other option.
abbrev pub Wins : Method → ℕ → List Vote → String → Type 0
Wins unanimous expected votes w =
    (length votes ≡ expected) × (has_votes w votes ≡ true) × All (λ (v : Vote). v.option ≡ w) votes
Wins method expected votes w = (expected < 2 * length votes) × Leads method votes w

unanimous-Wins :
    (expected : ℕ) (votes : List Vote) (w : String)
    → w ≢ ""
    → (winner unanimous expected votes ≡ w) ↔ Wins unanimous expected votes w
unfolding winner
unanimous-Wins expected [] w ne = ((λ h. absurd (ne (cc h))), λ h. cc h.1)
unanimous-Wins expected (v ∷ votes) w ne = elim (Bool-cases agree) [
  | inl e ↦ rw e (
    (λ h.
        let all_first = (options_of v.option votes).0 (first.0 (ground (arith, e))) in
        (
          ground (arith, e),
          rw (← h) (rw (eq_refl v.option) refl),
          (h, subst (λ z. All (λ (u : Vote). u.option ≡ z) votes) h all_first),
        )),
    λ h. h.2.0,
  )
  | inr e ↦ rw e (
    (λ h. absurd (ne (sym h))),
    λ h.
        let none_else = first.1 ((options_of v.option votes).1 (rw h.2.0 h.2.1)) in
        ground (arith, e, none_else, h.0),
  )
]
  where
    first :
        (length (distinct_from (v.option ∷ []) (map (λ v. v.option) votes)) ≡ 0)
        ↔ All (λ x. x ≡ v.option) (map (λ v. v.option) votes)
    first = distinct_from-eq-empty v.option (map (λ v. v.option) votes)

    agree : Bool
    agree =
        (length (v ∷ votes) == expected)
        && (length (distinct (map (λ v. v.option) (v ∷ votes))) == 1)

scored-Wins :
    (method : Method) (expected : ℕ) (votes : List Vote) (w : String)
    → w ≢ ""
    → (scored_winner method expected votes ≡ w)
      ↔ ((expected < 2 * length votes) × Leads method votes w)
scored-Wins method expected votes w ne = elim (Bool-cases (ltb expected (2 * length votes))) [
  | inl e ↦ rw e (
    (λ h. (
      ground arith,
      (Tops-Leads method votes w).0
          (winner_of-Tops (tally method [] votes) w (tally-IsDict method votes [] tt) ne h),
    )),
    λ h.
        Tops-winner_of (tally method [] votes) w (tally-IsDict method votes [] tt)
          ((Tops-Leads method votes w).1 h.1),
  )
  | inr e ↦ rw e ((λ h. absurd (ne (sym h))), λ h. ground (arith, h.0))
]

winner-Wins :
    (method : Method) (expected : ℕ) (votes : List Vote) (w : String)
    → w ≢ ""
    → (winner method expected votes ≡ w) ↔ Wins method expected votes w
unfolding winner
winner-Wins unanimous expected votes w ne = unanimous-Wins expected votes w ne
winner-Wins majority expected votes w ne = scored-Wins majority expected votes w ne
winner-Wins confidence_weighted expected votes w ne =
    scored-Wins confidence_weighted expected votes w ne

-- Once every member's task has finished, the session is decided for a non-empty option exactly when that
-- option wins: under the unanimous method every member has voted and all for it, otherwise more than
-- half of the members have voted and its score is above that of every other option.
pub finalize_consensus-Wins :
    (now expected : ℕ) (tasks : List VoteTask) (votes : List Vote) (session : Session) (w : String)
    → w ≢ ""
    → expected ≤ finished_tasks session tasks
    → let after = finalize_consensus now expected tasks votes session in
      ((after.status ≡ SessionStatus.decided) × (after.result_option ≡ w))
      ↔ Wins session.method expected votes w
unfolding finalize_consensus
finalize_consensus-Wins now expected tasks votes session w ne finished =
    let (to, from) = winner-Wins session.method expected votes w ne in
    let all_in : ltb (finished_tasks session tasks) expected ≡ false = ground arith in
    rw all_in ((λ h. to h.1), λ h. let won = from h in (rw won (ground (arith, eq_iff w "")), won))

Wins-voted :
    (method : Method) (expected : ℕ) (votes : List Vote) (w : String)
    → Wins method expected votes w
    → has_votes w votes ≡ true
Wins-voted unanimous expected votes w h = h.1
Wins-voted majority expected votes w h = h.1.0
Wins-voted confidence_weighted expected votes w h = h.1.0

-- Once every member's task has finished, and if no vote is for the empty text, the session is
-- deadlocked exactly when no option wins, with an empty result.
pub finalize_consensus-deadlocked_iff :
    (now expected : ℕ) (tasks : List VoteTask) (votes : List Vote) (session : Session)
    → expected ≤ finished_tasks session tasks
    → has_votes "" votes ≡ false
    → let after = finalize_consensus now expected tasks votes session in
      ((after.status ≡ SessionStatus.deadlocked) × (after.result_option ≡ ""))
      ↔ ((w : String) → ¬ Wins session.method expected votes w)
unfolding finalize_consensus
finalize_consensus-deadlocked_iff now expected tasks votes session finished named =
    let won = winner session.method expected votes in
    let all_in : ltb (finished_tasks session tasks) expected ≡ false = ground arith in
    rw all_in (
      (λ h w wins.
          let voted = Wins-voted session.method expected votes w wins in
          let ne : w ≢ "" = λ e. cc (rw e at voted, named) in
          ne (sym ((winner-Wins session.method expected votes w ne).1 wins) ∙ h.1)),
      λ f. elim (Bool-cases (str_eq won "")) [
        | inl e ↦ (rw e refl, (eq_iff won "").0 e)
        | inr e ↦ absurd (
            f won (
              (winner-Wins session.method expected votes won
                  (λ same. ground (arith, eq_iff won ""))).0
                refl))
      ],
    )
