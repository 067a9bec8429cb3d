-- ===== src/Wizard/Store/View.antt =====
-- The store as a map from keys to values: what `set` changes, and that `flush` changes nothing.
use hermes_vps.Prelude.{
  ◌≡◌, refl, sym, ap, ◌∙◌, ◌≢◌, Bool, true, false, String, Option, none, some, List, [], ◌∷◌, ◌++◌,
  ◌==◌, eq_iff, arith, if◌then◌else◌, is_some, Bool-cases, inl, inr, All, All-append,
}
use hermes_vps.Text.{◌<>◌}
use hermes_vps.Wizard.Store.{
  after_prefix, after_equals, value_of_line, value_or, search_value, has_line, replace_line, closed,
  put_expanded, upsert_env_line,
}
use hermes_vps.Wizard.Store.Lines.{
  Lacks, value_of_line-own, value_of_line-other, value_of_line_sound, split_lines-line,
}

-- A line with its value that stays one line when it is written and read, and that the template syntax of `re` does not change.
abbrev pub IsPlainLine : (String → Option String) → String → String → Type 0
IsPlainLine expand key value =
    Lacks 61 key
    × Lacks 10 (key <> "=" <> value)
    × Lacks 13 (key <> "=" <> value)
    × (expand (key <> "=" <> value) ≡ some (key <> "=" <> value))

search_value-has :
    (key : String) (c : List String) → has_line key c ≡ false → search_value key c ≡ ""
unfolding search_value has_line value_or
search_value-has key [] h = refl
search_value-has key (line ∷ lines) h = go (value_of_line key line) (search_value-has key lines) h
  where
    go :
        (o : Option String)
        → (has_line key lines ≡ false → search_value key lines ≡ "")
        → (if is_some o then true else has_line key lines) ≡ false
        → value_or o (search_value key lines) ≡ ""
    go none later e = later e
    go (some v) later e = absurd (cc)

replace_line-own :
    (key value : String) (c : List String)
    → has_line key c ≡ true
    → search_value key (replace_line key ((key <> "=" <> value) ∷ []) c) ≡ value
unfolding search_value has_line replace_line value_or
replace_line-own key value [] h = absurd (cc)
replace_line-own key value (line ∷ lines) h =
    go (value_of_line key line) refl (replace_line-own key value lines) h
  where
    go :
        (o : Option String)
        → value_of_line key line ≡ o
        → (has_line key lines ≡ true
            → search_value key (replace_line key ((key <> "=" <> value) ∷ []) lines) ≡ value)
        → (if is_some o then true else has_line key lines) ≡ true
        → search_value key (
            if is_some o
            then (key <> "=" <> value) ∷ lines
            else line ∷ replace_line key ((key <> "=" <> value) ∷ []) lines)
          ≡ value
    go none p later e = rw p (later e)
    go (some v) p later e = rw (value_of_line-own key value) refl

replace_line-other :
    (j key value : String) (c : List String)
    → Lacks 61 j
    → Lacks 61 key
    → j ≢ key
    → search_value j (replace_line key ((key <> "=" <> value) ∷ []) c) ≡ search_value j c
unfolding search_value replace_line value_or
replace_line-other j key value [] hj hk differ = refl
replace_line-other j key value (line ∷ lines) hj hk differ =
    go (value_of_line key line) refl (replace_line-other j key value lines hj hk differ)
  where
    go :
        (o : Option String)
        → value_of_line key line ≡ o
        → search_value j (replace_line key ((key <> "=" <> value) ∷ []) lines)
          ≡ search_value j lines
        → search_value j (
            if is_some o
            then (key <> "=" <> value) ∷ lines
            else line ∷ replace_line key ((key <> "=" <> value) ∷ []) lines)
          ≡ value_or (value_of_line j line) (search_value j lines)
    go none p later = ap (value_or (value_of_line j line)) later
    go (some v) p later =
        let old_line = value_of_line_sound key line p in
        rw
          (
            value_of_line-other j key value hj hk differ,
            ap (value_of_line j) (sym old_line),
            value_of_line-other j key v hj hk differ,
          )
          refl

replace_line-All :
    (P : String → Type 0) (key new : String) (c : List String)
    → P new
    → All P c
    → All P (replace_line key (new ∷ []) c)
unfolding replace_line
replace_line-All P key new [] h hs = tt
replace_line-All P key new (line ∷ lines) h hs =
    elim (Bool-cases (is_some (value_of_line key line))) [
      | inl found ↦ rw found (h, hs.1)
      | inr other ↦ rw other (hs.0, replace_line-All P key new lines h hs.1)
    ]

closed-All : (P : String → Type 0) (c : List String) → All P c → All P (closed c)
unfolding closed
closed-All P [] hs = tt
closed-All P (line ∷ []) hs = elim (Bool-cases (line == "")) [
  | inl blank ↦ rw blank tt
  | inr text ↦ rw text hs
]
closed-All P (line ∷ next ∷ lines) hs = (hs.0, closed-All P (next ∷ lines) hs.1)

-- What is read of two files in a row.
search_value-append :
    (key : String) (a b : List String)
    → search_value key (a ++ b)
      ≡ (if has_line key a then search_value key a else search_value key b)
unfolding search_value has_line value_or
search_value-append key [] b = refl
search_value-append key (line ∷ lines) b =
    go (value_of_line key line) (search_value-append key lines b)
  where
    go :
        (o : Option String)
        → search_value key (lines ++ b)
          ≡ (if has_line key lines then search_value key lines else search_value key b)
        → value_or o (search_value key (lines ++ b)) ≡ (
            if (if is_some o then true else has_line key lines)
            then value_or o (search_value key lines)
            else search_value key b)
    go none later = later
    go (some v) later = refl

value_of_line-blank : (key : String) → value_of_line key "" ≡ none
unfolding value_of_line after_prefix after_equals
value_of_line-blank String.[] = refl
value_of_line-blank (String.◌∷◌ c key) = refl

closed-same :
    (key : String) (c : List String)
    → (has_line key (closed c) ≡ has_line key c)
      × (search_value key (closed c) ≡ search_value key c)
unfolding closed has_line search_value value_or
closed-same key [] = (refl, refl)
closed-same key (line ∷ []) = elim (Bool-cases (line == "")) [
  | inl blank ↦
      let no_value : value_of_line key line ≡ none =
        ap (value_of_line key) ((eq_iff line "").0 blank) ∙ value_of_line-blank key in
      rw (blank, no_value) (refl, refl)
  | inr text ↦ rw text (refl, refl)
]
closed-same key (line ∷ next ∷ lines) =
    let (same_has, same_value) = closed-same key (next ∷ lines) in
    (rw same_has refl, rw same_value refl)

-- Reading a written line, and what follows it.
written_line :
    (j key value : String) (rest : List String)
    → Lacks 61 j
    → Lacks 61 key
    → search_value j ((key <> "=" <> value) ∷ rest)
      ≡ (if key == j then value else search_value j rest)
unfolding search_value value_or
written_line j key value rest hj hk = elim (Bool-cases (key == j)) [
  | inl same ↦ rw (same, sym ((eq_iff key j).0 same), value_of_line-own key value) refl
  | inr other ↦
      rw (other, value_of_line-other j key value hj hk (λ same. ground (arith, eq_iff key j))) refl
]

blank-get : (j : String) → search_value j ("" ∷ []) ≡ ""
unfolding search_value value_or
blank-get j = rw (value_of_line-blank j) refl

append_line-get :
    (content : List String) (key value : String)
    → has_line key content ≡ false
    → Lacks 61 key
    → (j : String) → Lacks 61 j
    → search_value j (closed content ++ ((key <> "=" <> value) ∷ "" ∷ []))
      ≡ (if key == j then value else search_value j content)
append_line-get content key value h hk j hj = elim (Bool-cases (has_line j content)) [
  | inl has ↦
      let other : (key == j) ≡ false = elim (Bool-cases (key == j)) [
        | inl same ↦
            absurd (let same_has = ap (λ k. has_line k content) ((eq_iff key j).0 same) in cc)
        | inr differ ↦ differ
      ] in
      rw
        (
          search_value-append j (closed content) ((key <> "=" <> value) ∷ "" ∷ []),
          (closed-same j content).0,
          has,
          other,
        )
        (closed-same j content).1
  | inr lacks ↦
      rw
        (
          search_value-append j (closed content) ((key <> "=" <> value) ∷ "" ∷ []),
          (closed-same j content).0,
          lacks,
          written_line j key value ("" ∷ []) hj hk,
          search_value-has j content lacks,
          blank-get j,
        )
        refl
]

pub upsert_env_line-get :
    (expand : String → Option String) (content : List String) (key value : String)
    → IsPlainLine expand key value
    → All (Lacks 13) content
    → (after : List String) × (upsert_env_line expand content key value ≡ some after)
      × All (Lacks 13) after
      × ((j : String)
          → Lacks 61 j
          → search_value j after ≡ (if key == j then value else search_value j content))
unfolding upsert_env_line put_expanded
upsert_env_line-get expand content key value (hk, one_line, no_return, same_text) clean =
    go (has_line key content) refl
  where
    go :
        (b : Bool)
        → has_line key content ≡ b
        → (after : List String) × (upsert_env_line expand content key value ≡ some after)
          × All (Lacks 13) after
          × ((j : String)
              → Lacks 61 j
              → search_value j after ≡ (if key == j then value else search_value j content))
    go true h = (
      replace_line key ((key <> "=" <> value) ∷ []) content,
      rw (h, same_text, split_lines-line (key <> "=" <> value) one_line) refl,
      replace_line-All (Lacks 13) key (key <> "=" <> value) content no_return clean,
      λ j hj. elim (Bool-cases (key == j)) [
        | inl same ↦ rw (same, sym ((eq_iff key j).0 same)) (replace_line-own key value content h)
        | inr other ↦
            rw other
              (replace_line-other j key value content hj hk (λ same. ground (arith, eq_iff key j)))
      ],
    )
    go false h = (
      closed content ++ ((key <> "=" <> value) ∷ "" ∷ []),
      rw (h, split_lines-line (key <> "=" <> value) one_line) refl,
      All-append (Lacks 13) (closed content) ((key <> "=" <> value) ∷ "" ∷ [])
          (closed-All (Lacks 13) content clean) (no_return, (refl, tt)),
      λ j hj. append_line-get content key value h hk j hj,
    )
