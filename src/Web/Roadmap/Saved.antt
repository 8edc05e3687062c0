-- ===== src/Web/Roadmap/Saved.antt =====
-- apps/web/src/lib/guestRoadmap.ts: reads of the browser's store after a save.
use devops_lab.Prelude.{
  ℕ, ◌≡◌, refl, Bool, true, false, some, String, List, [], ◌∷◌, string_eq, ◌==◌, eq_self, eq_of_beq,
  Bool-cases, inl, inr, arith, if◌then◌else◌, subst, eq_flip, ◌||◌, not,
}
use devops_lab.Web.Roadmap.{
  Store, Stored, missing, encoded, garbage, Parsed, object_value, array_value, scalar_value,
  null_value, Entry, entry_of, set_entry, put_entry, get_progress, save_progress, read_store,
  read_as, read_value,
}

entry_of-set_entry :
    (slug other : String) (e : Entry) (s : Store)
    → entry_of other (set_entry slug e s) ≡ (if slug == other then some e else entry_of other s)
unfolding entry_of set_entry
entry_of-set_entry slug other e [] = refl
entry_of-set_entry slug other e ((key, old) ∷ rest) = elim (Bool-cases (key == slug)) [
  | inl h ↦ rw (eq_of_beq key slug h) (ground (arith, eq_self slug))
  | inr h ↦ elim (Bool-cases (key == other)) [
    | inl k ↦
        let other_key : (other == slug) ≡ false =
          subst (λ x. (x == slug) ≡ false) (eq_of_beq key other k) h in
        ground (arith, h, k, other_key, eq_flip slug other)
    | inr k ↦ ground (arith, h, k, entry_of-set_entry slug other e rest)
  ]
]

-- A read of the object with the new entry.
saved :
    (now : ℕ) (slug other : String) (completed in_progress : List String) (s : Store)
    → let new : Entry = record {
      completed_nodes = some completed;
      in_progress_nodes = some in_progress;
      updated_at = now;
    } in
      read_value other (object_value (set_entry slug new s)) ≡ (
        if slug == other
        then read_as (
            some (record {
              roadmap_id = other;
              completed_nodes = completed;
              in_progress_nodes = in_progress;
            }))
        else read_value other (object_value s))
saved now slug other completed in_progress s =
    let new : Entry = record {
      completed_nodes = some completed;
      in_progress_nodes = some in_progress;
      updated_at = now;
    } in
    let found = entry_of-set_entry slug other new s in
    elim (Bool-cases (slug == other)) [ inl e ↦ rw (found, e) refl | inr e ↦ rw (found, e) refl ]

abbrev pub is_object : Parsed → Bool
is_object (object_value s) = true
is_object _ = false

-- After a save that the browser accepts, if the storage held an object (or nothing, or a text that
-- does not parse), the slug reads back what was saved, and every other slug reads what it read
-- before; if the browser refuses the save or the storage held an array, another primitive value or
-- null, every slug reads what it read before, the error for null included. A slug is no index of
-- an array and no name that every value has.
pub get_progress-save_progress :
    (throws : Bool) (now : ℕ) (slug other : String) (completed in_progress : List String)
    (st : Stored)
    → get_progress other (save_progress throws now slug completed in_progress st) ≡ (
        if throws || not (is_object (read_store st))
        then get_progress other st
        else (if slug == other
            then read_as (
                some (record {
                  roadmap_id = other;
                  completed_nodes = completed;
                  in_progress_nodes = in_progress;
                }))
            else get_progress other st))
unfolding get_progress save_progress put_entry
get_progress-save_progress true now slug other completed in_progress st = refl
get_progress-save_progress false now slug other completed in_progress missing =
    saved now slug other completed in_progress []
get_progress-save_progress false now slug other completed in_progress garbage =
    saved now slug other completed in_progress []
get_progress-save_progress false now slug other completed in_progress (encoded (object_value s)) =
    saved now slug other completed in_progress s
get_progress-save_progress false now slug other completed in_progress (encoded array_value) = refl
get_progress-save_progress false now slug other completed in_progress (encoded scalar_value) = refl
get_progress-save_progress false now slug other completed in_progress (encoded null_value) = refl
