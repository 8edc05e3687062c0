-- ===== src/Web/Roadmap.antt =====
-- apps/web/src/lib/guestRoadmap.ts: the progress that a guest has on roadmaps, kept by the browser,
-- and its merge into an account. The slug is no index of an array and no name that every value has.
pub mod Unique
pub mod Merge
pub mod Saved
use devops_lab.Prelude.{
  ℕ, Bool, true, false, not, Option, none, some, String, List, [], ◌∷◌, ◌++◌, string_eq, ◌==◌, any,
  where_rows, or_else, if◌then◌else◌,
}

-- An entry of the store; a field that is missing or is no array is `none`.
pub record Entry : Type 0 where
  pub completed_nodes : Option (List String)
  pub in_progress_nodes : Option (List String)
  pub updated_at : ℕ

-- The object of the entries, by slug: the first pair with a slug counts.
abbrev pub Store : Type 0
Store = List (String × Entry)

-- What `JSON.parse` gives for a text: an object, an array, another primitive value than null, or
-- null. Entries that count as false are left out of the object.
pub data Parsed : Type 0 where
  object_value : Store → Parsed
  array_value scalar_value null_value : Parsed

-- What the key of the browser's storage holds: nothing, the text of a value, or a text that does not
-- parse.
pub data Stored : Type 0 where
  missing : Stored
  encoded : Parsed → Stored
  garbage : Stored

pub record RoadmapProgress : Type 0 where
  pub roadmap_id : String
  pub completed_nodes : List String
  pub in_progress_nodes : List String

-- `getGuestRoadmapStore`, in a browser
abbrev pub read_store : Stored → Parsed
read_store missing = object_value []
read_store (encoded v) = v
read_store garbage = object_value []

unfoldable pub entry_of : String → Store → Option Entry
entry_of slug [] = none
entry_of slug ((key, entry) ∷ rest) = if key == slug then some entry else entry_of slug rest

-- `store[slug] = entry`
unfoldable pub set_entry : String → Entry → Store → Store
set_entry slug entry [] = (slug, entry) ∷ []
set_entry slug entry ((key, old) ∷ rest) =
    let rest' = set_entry slug entry rest in
    if key == slug then (key, entry) ∷ rest else (key, old) ∷ rest'

abbrev pub progress_of : String → Option Entry → Option RoadmapProgress
progress_of slug none = none
progress_of slug (some e) = some (record {
  roadmap_id = slug;
  completed_nodes = or_else e.completed_nodes [];
  in_progress_nodes = or_else e.in_progress_nodes [];
})

-- The outcome of a read: the `TypeError` of a property of null, or the progress.
pub data ReadResult : Type 0 where
  read_failed : ReadResult
  read_as : Option RoadmapProgress → ReadResult

abbrev pub read_value : String → Parsed → ReadResult
read_value slug (object_value s) = read_as (progress_of slug (entry_of slug s))
read_value slug array_value = read_as none
read_value slug scalar_value = read_as none
read_value slug null_value = read_failed

unfoldable pub get_progress : String → Stored → ReadResult
unfolding entry_of
get_progress slug st = read_value slug (read_store st)

-- The value that is written back with a new entry: an array's text has no place for the entry, and
-- on a primitive value the assignment throws.
unfoldable pub put_entry : String → Entry → Parsed → Option Parsed
unfolding set_entry
put_entry slug entry (object_value s) = some (object_value (set_entry slug entry s))
put_entry slug entry array_value = some array_value
put_entry slug entry scalar_value = none
put_entry slug entry null_value = none

abbrev pub write_value : Option Parsed → Stored → Stored
write_value none st = st
write_value (some v) st = encoded v

-- `throws` says whether the browser refuses the write. Every error is caught.
unfoldable pub save_progress : Bool → ℕ → String → List String → List String → Stored → Stored
unfolding put_entry
save_progress throws now slug completed in_progress st =
    let entry : Entry = record {
      completed_nodes = some completed;
      in_progress_nodes = some in_progress;
      updated_at = now;
    } in
    if throws then st else write_value (put_entry slug entry (read_store st)) st

unfoldable pub clear_store : Bool → Stored → Stored
clear_store throws st = if throws then st else missing

abbrev pub includes : List String → String → Bool
includes xs x = any (λ y. y == x) xs

-- `Array.from(new Set(xs))`: the first of equal elements stays, in its place.
unfoldable pub unique : List String → List String
unique [] = []
unique (x ∷ xs) = x ∷ where_rows (λ y. not (y == x)) (unique xs)

pub record GuestProgress : Type 0 where
  pub completed_nodes : List String
  pub in_progress_nodes : Option (List String)

abbrev pub account_completed : Option RoadmapProgress → List String
account_completed none = []
account_completed (some p) = p.completed_nodes

abbrev pub account_in_progress : Option RoadmapProgress → List String
account_in_progress none = []
account_in_progress (some p) = p.in_progress_nodes

abbrev pub account_id : Option RoadmapProgress → String
account_id none = ""
account_id (some p) = p.roadmap_id

unfoldable pub merge_progress : Option RoadmapProgress → GuestProgress → RoadmapProgress
unfolding unique
merge_progress account guest =
    let completed = unique (account_completed account ++ guest.completed_nodes) in
    let started = unique (account_in_progress account ++ or_else guest.in_progress_nodes []) in
    record {
      roadmap_id = account_id account;
      completed_nodes = completed;
      in_progress_nodes = where_rows (λ n. not (includes completed n)) started;
    }
