-- ===== src/Wizard/Store/Refinement.antt =====
-- The store refines a map from keys to values: setting a key changes the map there, and a flush,
-- whether the file can be written or not, changes nothing.
use mathlib.Core.Path.{subst}
use hermes_vps.Prelude.{
  ◌≡◌, refl, sym, ap, ◌∙◌, Bool, true, false, String, Option, none, some, List, [], ◌∷◌, ◌==◌,
  eq_iff, elem, All, if◌then◌else◌, Bool-cases, inl, inr,
}
use hermes_vps.Prelude.Dict.{
  Dict, lookup, insert, keys, lookup-insert, NodupKeys, insert-NodupKeys, lookup-none, All-insert,
}
use hermes_vps.Prelude.Flow.{ok}
use hermes_vps.Core.Interfaces.{Exception}
use hermes_vps.Wizard.Store.{
  read_text, search_value, get_env_value, upsert_all, EnvStore, or_file, get, set_with, set, commit,
  flush, flush_with,
}
use hermes_vps.Wizard.Store.Lines.{Lacks}
use hermes_vps.Wizard.Store.Returns.{read_text-Lacks, read_text-All}
use hermes_vps.Wizard.Store.View.{IsPlainLine, upsert_env_line-get}

-- What the staged entries of a store have.
abbrev IsStaged : (String → Option String) → Dict String → Type 0
IsStaged expand staged = NodupKeys staged × All (λ e. IsPlainLine expand e.0 e.1) staged

abbrev pub IsStore : (String → Option String) → EnvStore → Type 0
IsStore expand store = IsStaged expand store.staged

insert-get :
    (key value : String) (staged : Dict String) (j default : String)
    → or_file (lookup j (insert key value staged)) default
      ≡ (if key == j then value else or_file (lookup j staged) default)
insert-get key value staged j default =
    rw (lookup-insert j key value staged)
      (elim (Bool-cases (key == j)) [ inl same ↦ rw same refl | inr other ↦ rw other refl ])

-- A map that has the value already is not changed by it.
kept-get :
    (f : String → String) (key value j : String)
    → f key ≡ value
    → f j ≡ (if key == j then value else f j)
kept-get f key value j e = elim (Bool-cases (key == j)) [
  | inl same ↦ rw same (ap f (sym ((eq_iff key j).0 same)) ∙ e)
  | inr other ↦ rw other refl
]

-- What `get` gives after `set`.
set-get :
    (key value : String) (store : EnvStore) (j : String)
    → get (set key value store) j ≡ (if key == j then value else get store j)
unfolding set set_with get
set-get key value store j = go (lookup key store.staged) refl
  where
    go :
        (o : Option String)
        → lookup key store.staged ≡ o
        → or_file
            (lookup j (set_with o key value store).staged)
            (get_env_value j (set_with o key value store).file)
          ≡ (if key == j
              then value
              else or_file (lookup j store.staged) (get_env_value j store.file))
    go none e = elim (Bool-cases (get_env_value key store.file == value)) [
      | inl same ↦
          let has : get store key ≡ value =
            rw e ((eq_iff (get_env_value key store.file) value).0 same) in
          rw same (kept-get (get store) key value j has)
      | inr other ↦ rw other (insert-get key value store.staged j (get_env_value j store.file))
    ]
    go (some old) e = elim (Bool-cases (old == value)) [
      | inl same ↦
          let has : get store key ≡ value = rw e ((eq_iff old value).0 same) in
          rw same (kept-get (get store) key value j has)
      | inr other ↦ rw other (insert-get key value store.staged j (get_env_value j store.file))
    ]

set-IsStore :
    (expand : String → Option String) (key value : String) (store : EnvStore)
    → IsPlainLine expand key value
    → IsStore expand store
    → IsStore expand (set key value store)
unfolding set set_with
set-IsStore expand key value store plain (distinct, all_plain) = go (lookup key store.staged)
  where
    inserted : IsStore expand (record store { staged = insert key value store.staged })
    inserted = (
      insert-NodupKeys key value store.staged distinct,
      All-insert (λ e. IsPlainLine expand e.0 e.1) key value store.staged all_plain plain,
    )

    keep_or :
        (b : Bool)
        → IsStore expand
            (if b then store else record store { staged = insert key value store.staged })
    keep_or true = (distinct, all_plain)
    keep_or false = inserted

    go : (o : Option String) → IsStore expand (set_with o key value store)
    go none = keep_or (get_env_value key store.file == value)
    go (some old) = keep_or (old == value)

-- The entry of a key that is not in the rest.
first_wins :
    (key value : String) (staged : Dict String) (j default : String)
    → elem key (keys staged) ≡ false
    → or_file (lookup j staged) (if key == j then value else default)
      ≡ or_file (if key == j then some value else lookup j staged) default
first_wins key value staged j default fresh = elim (Bool-cases (key == j)) [
  | inl same ↦
      let absent : lookup j staged ≡ none =
        lookup-none j staged
          (ap (λ k. elem k (keys staged)) (sym ((eq_iff key j).0 same)) ∙ fresh) in
      rw (same, absent) refl
  | inr other ↦ rw other refl
]

upsert_all-get :
    (expand : String → Option String) (staged : Dict String) (content : List String)
    → NodupKeys staged
    → All (λ e. IsPlainLine expand e.0 e.1) staged
    → All (Lacks 13) content
    → (after : List String) × (upsert_all expand staged content ≡ some after)
      × All (Lacks 13) after
      × ((j : String)
          → Lacks 61 j
          → search_value j after ≡ or_file (lookup j staged) (search_value j content))
unfolding upsert_all lookup
upsert_all-get expand [] content distinct plain clean = (content, refl, clean, λ j hj. refl)
upsert_all-get expand ((key, value) ∷ staged) content (fresh, distinct) (plain, all_plain) clean =
    let (next, written, next_clean, reads) =
      upsert_env_line-get expand content key value plain clean in
    let (after, all_written, after_clean, all_reads) =
      upsert_all-get expand staged next distinct all_plain next_clean in
    (
      after,
      rw written all_written,
      after_clean,
      λ j hj.
          all_reads j hj
          ∙ ap (or_file (lookup j staged)) (reads j hj)
          ∙ first_wins key value staged j (search_value j content) fresh,
    )

-- What a flush reads, writes and can read again.
flushed-get :
    (expand : String → Option String) (staged : Dict String) (file : List String)
    → IsStaged expand staged
    → (after : List String) × (upsert_all expand staged (read_text file) ≡ some after)
      × ((j : String)
          → Lacks 61 j
          → get_env_value j after ≡ or_file (lookup j staged) (get_env_value j file))
unfolding get_env_value
flushed-get expand staged file (distinct, all_plain) =
    let (after, written, clean, reads) =
      upsert_all-get expand staged (read_text file) distinct all_plain (read_text-All file) in
    (after, written, λ j hj. ap (search_value j) (read_text-Lacks after clean) ∙ reads j hj)

-- What a flush keeps.
abbrev Keeps : (String → Option String) → EnvStore → EnvStore → Type 0
Keeps expand store after =
    IsStore expand after × ((j : String) → Lacks 61 j → get after j ≡ get store j)

flush-Keeps :
    (expand : String → Option String) (failure : Option Exception) (store : EnvStore)
    → IsStore expand store
    → Keeps expand store (flush expand failure store).1
unfolding flush flush_with get commit lookup
flush-Keeps expand failure store h = go store.staged refl failure
  where
    go :
        (staged : Dict String)
        → store.staged ≡ staged
        → (failed : Option Exception) → Keeps expand store (flush_with staged expand failed store).1
    go [] e failed = (h, λ j hj. refl)
    go (entry ∷ staged) e failed =
        let (after, written, reads) =
          flushed-get expand (entry ∷ staged) store.file (subst (IsStaged expand) e h) in
        rw written (committed failed after (λ j hj. rw e (reads j hj)))
      where
        committed :
            (failed : Option Exception) (after : List String)
            → ((j : String) → Lacks 61 j → get_env_value j after ≡ get store j)
            → Keeps expand store (commit failed (some after) store).1
        committed (some exc) after reads = (h, λ j hj. refl)
        committed none after reads = ((tt, tt), reads)

-- The operations of the store, and what each does to a map.
pub data Change : Type 0 where
  put : String → String → Change
  write : Option Exception → Change

abbrev pub changed : (String → Option String) → List Change → EnvStore → EnvStore
changed expand [] store = store
changed expand (put key value ∷ changes) store = changed expand changes (set key value store)
changed expand (write failure ∷ changes) store =
    changed expand changes (flush expand failure store).1

abbrev pub changed_map : List Change → (String → String) → String → String
changed_map [] f j = f j
changed_map (put key value ∷ changes) f j =
    changed_map changes (λ i. if key == i then value else f i) j
changed_map (write failure ∷ changes) f j = changed_map changes f j

abbrev pub IsPlain : (String → Option String) → Change → Type 0
IsPlain expand (put key value) = IsPlainLine expand key value
IsPlain expand (write failure) = Unit

changed_map-same :
    (changes : List Change) (f g : String → String)
    → ((j : String) → Lacks 61 j → f j ≡ g j)
    → (j : String) → Lacks 61 j
    → changed_map changes f j ≡ changed_map changes g j
changed_map-same [] f g h j hj = h j hj
changed_map-same (put key value ∷ changes) f g h j hj =
    changed_map-same changes (λ i. if key == i then value else f i)
      (λ i. if key == i then value else g i)
      (λ i hi. ap (λ v. if key == i then value else v) (h i hi)) j hj
changed_map-same (write failure ∷ changes) f g h j hj = changed_map-same changes f g h j hj

-- The store refines a map. After any sequence of `set` and `flush`, where each flush may fail to
-- write the file, `get` gives what the map gives that had the values put in; for keys without an
-- equals sign, and lines without a newline or a carriage return that the template syntax of `re`
-- does not change. What is staged at the start is of this kind too, under distinct keys; the file
-- at the start may hold anything, carriage returns too.
pub changed-get :
    (expand : String → Option String) (changes : List Change) (store : EnvStore)
    → IsStore expand store
    → All (IsPlain expand) changes
    → (j : String) → Lacks 61 j
    → get (changed expand changes store) j ≡ changed_map changes (get store) j
changed-get expand [] store h plain j hj = refl
changed-get expand (put key value ∷ changes) store h (p, plain) j hj =
    changed-get expand changes (set key value store) (set-IsStore expand key value store p h) plain
      j hj
    ∙ changed_map-same changes (get (set key value store))
        (λ i. if key == i then value else get store i) (λ i hi. set-get key value store i) j hj
changed-get expand (write failure ∷ changes) store h (p, plain) j hj =
    let (kept, same) = flush-Keeps expand failure store h in
    changed-get expand changes (flush expand failure store).1 kept plain j hj
    ∙ changed_map-same changes (get (flush expand failure store).1) (get store) same j hj

-- A flush writes all that is staged, where the file can be written: nothing is staged afterwards, and
-- the file alone, read again, has the value of every key. The staged keys are distinct and have no
-- equals sign, as the key that is read, and the staged lines have no newline and no carriage return,
-- and the template syntax of `re` does not change them.
pub flush-written :
    (expand : String → Option String) (store : EnvStore)
    → IsStore expand store
    → ((flush expand none store).0 ≡ ok tt)
      × ((flush expand none store).1.staged ≡ [])
      × ((j : String) → Lacks 61 j → get_env_value j (flush expand none store).1.file ≡ get store j)
unfolding flush flush_with get commit lookup
flush-written expand store h = go store.staged refl
  where
    go :
        (staged : Dict String)
        → store.staged ≡ staged
        → ((flush_with staged expand none store).0 ≡ ok tt)
          × ((flush_with staged expand none store).1.staged ≡ [])
          × ((j : String)
              → Lacks 61 j
              → get_env_value j (flush_with staged expand none store).1.file ≡ get store j)
    go [] e = (refl, e, λ j hj. rw e refl)
    go (entry ∷ staged) e =
        let (after, written, reads) =
          flushed-get expand (entry ∷ staged) store.file (subst (IsStaged expand) e h) in
        rw written (refl, refl, λ j hj. rw e (reads j hj))
