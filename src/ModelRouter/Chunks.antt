-- ===== src/ModelRouter/Chunks.antt =====
-- What the chunks of a stream hold of its events
-- (services/app/ai/model_router/adapters/deepseek_cloud.py).
use deep_foundry.Base.{
  ℕ, String, Bool, true, false, Option, none, some, List, [], ◌∷◌, ◌++◌, map, keep, ◌≡◌, refl, sym,
  ap, ◌∙◌, Bool-cases, inl, inr, arith, if◌then◌else◌, eq_iff,
}
use deep_foundry.Base.Dict.{get_or_default}
use deep_foundry.Base.Sorting.{sort_by}
use deep_foundry.Base.Text.{append_text, concat_texts, nil-append}
use deep_foundry.ModelRouter.{StreamChunk}
use deep_foundry.ModelRouter.Cloud.{JsonText}
use deep_foundry.ModelRouter.Streams.{
  Fragment, Delta, Event, no_choices, first_choice, Slots, accumulate_all, index_le, call_of,
  finalize_tool_calls, calls_or_none, has_reason, has_text, is_pure_fragment, chunk_of,
  generate_chunks,
}
use deep_foundry.ModelRouter.Assembled.{
  slot_at, slot_after, at_index, IsAscending, slot_at-accumulate_all, accumulate_all-Unique,
  slot_at-sort_by, sort_by-IsAscending,
}

abbrev pub fragments_of : List Event → List Fragment
fragments_of [] = []
fragments_of (no_choices ∷ events) = fragments_of events
fragments_of (first_choice delta ∷ events) = delta.fragments ++ fragments_of events

abbrev pub content_of : Event → String
content_of no_choices = ""
content_of (first_choice delta) = get_or_default "" delta.content

accumulate_all-append :
    (fs gs : List Fragment) (slots : Slots)
    → accumulate_all (fs ++ gs) slots ≡ accumulate_all gs (accumulate_all fs slots)
accumulate_all-append [] gs slots = refl
accumulate_all-append (f ∷ fs) gs slots = accumulate_all-append fs gs _

is_pure_fragment-content :
    (delta : Delta) → is_pure_fragment delta ≡ true → get_or_default "" delta.content ≡ ""
is_pure_fragment-content delta h = no_text delta.content (ground (arith, h))
  where
    no_text : (content : Option String) → has_text content ≡ false → get_or_default "" content ≡ ""
    no_text none e = refl
    no_text (some s) e = ground (arith, eq_iff s "")

-- A list with an element after it, under a test that adds one before it.
if-append :
    {A : Type 0} (test : Bool) (x y : A) (xs ys : List A)
    → xs ≡ ys ++ (y ∷ [])
    → (if test then xs else x ∷ xs) ≡ (if test then ys else x ∷ ys) ++ (y ∷ [])
if-append true x y xs ys h = h
if-append false x y xs ys h = ap (λ zs. x ∷ zs) h

-- An event with a finish reason is no pure fragment.
has_reason-pure :
    (delta : Delta) (reason : String)
    → delta.finish_reason ≡ some reason
    → is_pure_fragment delta ≡ false
has_reason-pure delta reason h =
    let with_reason : has_reason delta.finish_reason ≡ true = rw h refl in
    ground (arith, with_reason)

module _ (json : JsonText) where
  -- The texts of the chunks, one after another, are the texts of the events: the stream drops the
  -- events that have none, and neither loses nor reorders text.
  pub generate_chunks-content :
      (events : List Event) (slots : Slots)
      → concat_texts (map (λ (c : StreamChunk). c.delta) (generate_chunks json events slots))
        ≡ concat_texts (map content_of events)
  unfolding generate_chunks
  generate_chunks-content [] slots = refl
  generate_chunks-content (no_choices ∷ events) slots =
      generate_chunks-content events slots ∙ sym (nil-append _)
  generate_chunks-content (first_choice delta ∷ events) slots =
      elim (Bool-cases (is_pure_fragment delta)) [
        | inl e ↦
            rw
              (
                e,
                is_pure_fragment-content delta e,
                nil-append (concat_texts (map content_of events)),
              )
              (generate_chunks-content events (accumulate_all delta.fragments slots))
        | inr e ↦ rw e (
            ap (append_text (get_or_default "" delta.content))
              (generate_chunks-content events (accumulate_all delta.fragments slots)))
      ]

  generate_chunks-append :
      (events : List Event) (last : Delta) (slots : Slots)
      → is_pure_fragment last ≡ false
      → generate_chunks json (events ++ (first_choice last ∷ [])) slots
        ≡ generate_chunks json events slots
          ++ (chunk_of json last
                (accumulate_all last.fragments (accumulate_all (fragments_of events) slots))
              ∷ [])
  unfolding generate_chunks
  generate_chunks-append [] last slots h = rw h refl
  generate_chunks-append (no_choices ∷ events) last slots h =
      generate_chunks-append events last slots h
  generate_chunks-append (first_choice delta ∷ events) last slots h =
      rw (accumulate_all-append delta.fragments (fragments_of events) slots) (
        if-append (is_pure_fragment delta) _ _ _ _
          (generate_chunks-append events last (accumulate_all delta.fragments slots) h))

  calls_or_none-map :
      (slots : Slots)
      → get_or_default [] (calls_or_none json slots) ≡ map (call_of json) (sort_by index_le slots)
  unfolding finalize_tool_calls
  calls_or_none-map [] = refl
  calls_or_none-map (s ∷ slots) = refl

  -- A last event that has a finish reason gives one more chunk, with that reason, whose tool calls are
  -- fully assembled: they are the calls of slots in the order of their indexes, each index once, and
  -- the slot of an index has the last id and name that the fragments of that index in all events give,
  -- and all their arguments one after another.
  pub generate_chunks-last :
      (events : List Event) (last : Delta) (reason : String)
      → last.finish_reason ≡ some reason
      → (chunk : StreamChunk) × (slots : Slots) × (generate_chunks json
            (events ++ (first_choice last ∷ []))
            []
          ≡ generate_chunks json events [] ++ (chunk ∷ []))
        × (chunk.finish_reason ≡ some reason)
        × (get_or_default [] chunk.tool_calls ≡ map (call_of json) slots)
        × IsAscending slots
        × ((i : ℕ)
            → slot_at i slots
              ≡ slot_after none (keep (at_index i) (fragments_of events ++ last.fragments)))
  generate_chunks-last events last reason h =
      let slots = accumulate_all last.fragments (accumulate_all (fragments_of events) []) in
      let same : accumulate_all (fragments_of events ++ last.fragments) [] ≡ slots =
        accumulate_all-append (fragments_of events) last.fragments [] in
      let unique =
        accumulate_all-Unique last.fragments _
          (accumulate_all-Unique (fragments_of events) [] tt) in
      (
        chunk_of json last slots,
        sort_by index_le slots,
        generate_chunks-append events last [] (has_reason-pure last reason h),
        h,
        calls_or_none-map slots,
        sort_by-IsAscending slots unique,
        λ i.
            slot_at-sort_by i slots unique
            ∙ (ap (slot_at i) (sym same)
                ∙ slot_at-accumulate_all i (fragments_of events ++ last.fragments) []),
      )
