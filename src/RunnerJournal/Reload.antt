-- ===== src/RunnerJournal/Reload.antt =====
-- What a runner that starts again finds in the journal that it has written.
use remote_control_pjt.Prelude.{
  ==-refl, ==-eq, ◌≡◌, refl, ap, ◌∙◌, subst, sym, Bool, true, false, String, Option, none, some,
  List, [], ◌∷◌, ◌++◌, map, contains, Distinct, All, All-sort_by, Distinct-sort_by, ◌==◌, string_eq,
  arith, if◌then◌else◌, Bool-cases, inl, inr,
}
use remote_control_pjt.Result.{Result, ok, err}
use remote_control_pjt.Json.{Json, Items, Fields, cons, items, obj, text}
use remote_control_pjt.RunnerJournal.{
  RunnerExecutionEntry, Entries, Journal, asdict, entry_from_dict,
}
use remote_control_pjt.RunnerJournal.RoundTrip.{IsValid, entry_from_dict-asdict}
use remote_control_pjt.RunnerJournal.Operations.{
  values, sorted, payload, put_entry, load_items, load, instance_of,
}

abbrev pub id_of : RunnerExecutionEntry → String
id_of e = e.execution_id

abbrev pub keyed : List RunnerExecutionEntry → Entries
keyed = map (λ (e : RunnerExecutionEntry). (e.execution_id, e))

-- A new key goes to the end.
put_entry-new :
    (e : RunnerExecutionEntry) (es : List RunnerExecutionEntry)
    → contains (map id_of es) e.execution_id ≡ false
    → put_entry e.execution_id e (keyed es) ≡ keyed (es ++ e ∷ [])
put_entry-new e [] n = refl
put_entry-new e (x ∷ es) n = ground (arith, put_entry-new e es)

load_items-cons :
    (strip : String → String) (str : Json → String) (raw : Fields) (xs : Items) (es : Entries)
    {e : RunnerExecutionEntry}
    → entry_from_dict str raw ≡ ok e
    → load_items strip str (cons (obj raw) xs) es
      ≡ load_items strip str xs (put_entry e.execution_id e es)
unfolding load_items
load_items-cons strip str raw xs es h = rw (load_items, h) refl

snoc_append :
    (xs ys : List RunnerExecutionEntry) (e : RunnerExecutionEntry)
    → (xs ++ e ∷ []) ++ ys ≡ xs ++ e ∷ ys
snoc_append [] ys e = refl
snoc_append (x ∷ xs) ys e = ap (λ l. x ∷ l) (snoc_append xs ys e)

append_nil : (xs : List RunnerExecutionEntry) → xs ++ [] ≡ xs
append_nil [] = refl
append_nil (x ∷ xs) = ap (λ l. x ∷ l) (append_nil xs)

contains-middle :
    (xs ys : List RunnerExecutionEntry) (e : RunnerExecutionEntry)
    → contains (map id_of (xs ++ e ∷ ys)) e.execution_id ≡ true
contains-middle [] ys e = rw (==-refl e.execution_id) refl
contains-middle (x ∷ xs) ys e = ground (arith, contains-middle xs ys e)

Distinct-middle :
    (xs ys : List RunnerExecutionEntry) (e : RunnerExecutionEntry)
    → Distinct (map id_of (xs ++ e ∷ ys))
    → contains (map id_of xs) e.execution_id ≡ false
Distinct-middle [] ys e d = refl
Distinct-middle (x ∷ xs) ys e (n, d) = elim (Bool-cases (x.execution_id == e.execution_id)) [
  | inr other ↦ rw other (Distinct-middle xs ys e d)
  | inl same ↦ absurd (
      false-ne-true (
        sym (
          subst (λ k. contains (map id_of (xs ++ e ∷ ys)) k ≡ false)
            (==-eq x.execution_id e.execution_id same) n)
        ∙ contains-middle xs ys e))
]
  where
    false-ne-true : false ≡ true → ⊥
    false-ne-true h = cc

load_items-asdict :
    (strip : String → String) (str : Json → String) (done es : List RunnerExecutionEntry)
    → All IsValid es
    → Distinct (map id_of (done ++ es))
    → load_items strip str (items (map (λ e. obj (asdict e)) es)) (keyed done)
      ≡ ok (keyed (done ++ es))
unfolding load_items
load_items-asdict strip str done [] v d = ap (λ l. ok (keyed l)) (sym (append_nil done))
load_items-asdict strip str done (e ∷ es) (v, vs) d =
    load_items-cons strip str (asdict e) (items (map (λ e. obj (asdict e)) es)) (keyed done)
      (entry_from_dict-asdict str e v)
    ∙ ap (load_items strip str (items (map (λ e. obj (asdict e)) es)))
        (put_entry-new e done (Distinct-middle done es e d))
    ∙ load_items-asdict strip str (done ++ e ∷ []) es vs
        (subst (λ l. Distinct (map id_of l)) (sym (snoc_append done es e)) d)
    ∙ ap (λ l. ok (keyed l)) (snoc_append done es e)

-- Where the runner's own identifier is not blank, every entry passes the checks of `_entry_from_dict`
-- and has no empty text among its optional texts, and no two have one identifier: what `_persist` writes, `_load` reads back, the identifier and all entries, in the order of
-- their identifiers.
pub load-payload :
    (strip : String → String) (str : Json → String) (before : String → String → Bool) (j : Journal)
    → (strip j.instance_id == "") ≡ false
    → All IsValid (values j.entries)
    → Distinct (map id_of (values j.entries))
    → load strip str (some (payload before j))
      ≡ ok (some j.instance_id, keyed (sorted before j.entries))
unfolding load
load-payload strip str before j named v d =
    ap
      (λ (r : Result Entries). elim r as (λ r. Result (Option String × Entries)) [
        | ok es ↦ ok (instance_of strip str (text j.instance_id), es)
        | err x ↦ err x
      ])
      (load_items-asdict strip str [] (sorted before j.entries) (All-sort_by IsValid _ _ v)
        (Distinct-sort_by id_of _ (values j.entries) d))
    ∙ ap (λ b. ok (if b then none else some j.instance_id, keyed (sorted before j.entries))) named
