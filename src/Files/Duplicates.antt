-- ===== src/Files/Duplicates.antt =====
-- `plan_duplicate_cleanup` and `_pick_keeper`. The walk, what `lstat` says of a path (0 where it
-- raises) and `file_hash` are what the disk answers, in a record.
pub mod Groups
pub mod Sound
pub mod Cleanup
use Prim.Native.String.{count}
use sysadmin_assistant.Shared.{
  ℕ, suc, ◌⊎◌, inl, inr, String, Bool, true, false, not, ◌||◌, Option, none, some, List, [], ◌∷◌,
  ◌++◌, any, map, keep, length, ltb, leb, ◌==◌, if◌then◌else◌, str_eq,
}
use sysadmin_assistant.Shared.Dict.{Dict, lookup, insert}
use sysadmin_assistant.Shared.Sort.{sort_by}
use sysadmin_assistant.Shared.Text.{concat}
use sysadmin_assistant.Jobs.{text_less}
use sysadmin_assistant.Files.{FilePath, path_eq}
use sysadmin_assistant.Files.Actions.{FileOperation, FileActionResponse, path_text}
use sysadmin_assistant.Files.Execute.{finalise}

pub record Scan : Type 0 where
  pub is_dir : Bool
  pub walked : List FilePath
  pub size_of : FilePath → ℕ
  pub modified : FilePath → ℕ
  pub file_hash : FilePath → ℕ → Option String
  pub repr : String → String

abbrev pub min_duplicate_bytes : ℕ
min_duplicate_bytes = 1024

abbrev pub duplicate_strategies : List String
duplicate_strategies = "newest" ∷ "largest" ∷ []

abbrev pub non_blank : Option String → Option String
non_blank none = none
non_blank (some text) = if str_eq text "" then none else some text

-- The digest under which a walked path is grouped.
unfoldable pub digest_of : Scan → FilePath → Option String
digest_of scan path =
    if ltb (scan.size_of path) min_duplicate_bytes
    then none
    else non_blank (scan.file_hash path (scan.size_of path))

abbrev pub members_of : Option (List FilePath) → List FilePath
members_of none = []
members_of (some members) = members

-- `groups[digest].append(path)`
abbrev pub add_to_group : FilePath → Option String → Dict (List FilePath) → Dict (List FilePath)
add_to_group path none groups = groups
add_to_group path (some digest) groups =
    insert digest (members_of (lookup digest groups) ++ path ∷ []) groups

unfoldable pub group_all : Scan → List FilePath → Dict (List FilePath) → Dict (List FilePath)
group_all scan [] groups = groups
group_all scan (p ∷ walked) groups =
    group_all scan walked (add_to_group p (digest_of scan p) groups)

abbrev pub primary : Scan → String → FilePath → ℕ
primary scan strategy p = if str_eq strategy "newest" then scan.modified p else scan.size_of p

-- The order of the keys `(-primary, len(str(path)), str(path))`.
unfoldable pub sorts_before : Scan → String → FilePath → FilePath → Bool
sorts_before scan strategy p q =
    if ltb (primary scan strategy q) (primary scan strategy p)
    then true
    else if ltb (primary scan strategy p) (primary scan strategy q)
    then false
    else if ltb (count (path_text p)) (count (path_text q))
    then true
    else if ltb (count (path_text q)) (count (path_text p))
    then false
    else text_less (path_text p) (path_text q)

abbrev pub first_of : List FilePath → Option FilePath
first_of [] = none
first_of (p ∷ paths) = some p

unfoldable pub pick_keeper : Scan → String → List FilePath → Option FilePath
pick_keeper scan strategy members = first_of (sort_by (sorts_before scan strategy) members)

unfoldable pub removal : Scan → String → FilePath → FilePath → FileOperation
removal scan strategy keeper path = record {
  action = "trash";
  source = path;
  destination = none;
  category = none;
  size_bytes = scan.size_of path;
  status = "planned";
  reason = some (concat ("duplicate (" ∷ strategy ∷ " copy retained)" ∷ []));
  keep_path = some keeper;
}

abbrev pub removals_of : FilePath → List FilePath → List FilePath
removals_of keeper members = keep (λ p. not (path_eq p keeper)) members

-- One group, whose invariant is checked: the error is the one that the code raises.
abbrev pub plan_group :
    Scan → String → String → List FilePath → Option FilePath → String ⊎ List FileOperation
plan_group scan strategy digest members none = inl "IndexError"
plan_group scan strategy digest members (some keeper) =
    if not (suc (length (removals_of keeper members)) == length members)
      || any (λ p. path_eq p keeper) (removals_of keeper members)
    then inl (concat ("duplicate group " ∷ digest ∷ " would not retain exactly one copy" ∷ []))
    else inr (map (removal scan strategy keeper) (removals_of keeper members))

-- The loop's body: a group of one is passed over, and a plan that is full stops.
abbrev pub group_planned :
    (List FileOperation → String ⊎ (List FileOperation × Bool))
    → List FileOperation
    → Bool
    → Bool
    → String ⊎ List FileOperation
    → String ⊎ (List FileOperation × Bool)
group_planned rest operations true full group = rest operations
group_planned rest operations false true group = inr (operations, true)
group_planned rest operations false false (inl error) = inl error
group_planned rest operations false false (inr more) = rest (operations ++ more)

unfoldable pub plan_groups :
    Scan
    → String
    → ℕ
    → List (String × List FilePath)
    → List FileOperation
    → String ⊎ (List FileOperation × Bool)
plan_groups scan strategy max_operations [] operations = inr (operations, false)
plan_groups scan strategy max_operations ((digest, members) ∷ groups) operations =
    group_planned (plan_groups scan strategy max_operations groups) operations
      (ltb (length members) 2) (leb max_operations (length operations))
      (plan_group scan strategy digest members (pick_keeper scan strategy members))

abbrev pub new_response : String → FilePath → FileActionResponse
new_response operation root = record {
  operation = operation;
  dry_run = true;
  scan_root = root;
  operations = [];
  flagged = [];
  planned_count = 0;
  done_count = 0;
  skipped_count = 0;
  failed_count = 0;
  total_bytes = 0;
  truncated = false;
  message = "";
}

abbrev pub group_less : String × List FilePath → String × List FilePath → Bool
group_less g h = text_less g.0 h.0

unfoldable pub grouped : Scan → List (String × List FilePath)
unfolding group_all
grouped scan = sort_by group_less (group_all scan scan.walked [])

abbrev pub planned_cleanup :
    FilePath → String → String ⊎ (List FileOperation × Bool) → String ⊎ FileActionResponse
planned_cleanup root strategy (inl error) = inl error
planned_cleanup root strategy (inr (operations, truncated)) = inr (
    finalise (record (new_response "clean_duplicates" root) {
      operations = operations;
      truncated = truncated;
      message = concat ("retaining the " ∷ strategy ∷ " copy of each duplicate group" ∷ []);
    }))

-- `strategy or config.duplicate_strategy`
abbrev pub strategy_or : String → Option String → String
strategy_or default none = default
strategy_or default (some strategy) = if str_eq strategy "" then default else strategy

unfoldable pub plan_duplicate_cleanup :
    Scan → FilePath → String → ℕ → Option String → String ⊎ FileActionResponse
unfolding plan_groups grouped
plan_duplicate_cleanup scan root default max_operations wanted =
    let strategy = strategy_or default wanted in
    if not (any (str_eq strategy) duplicate_strategies)
    then inl (
        concat
          ("unknown strategy " ∷ scan.repr strategy ∷ "; expected one of newest, largest" ∷ []))
    else if not scan.is_dir
    then inr (
        finalise (record (new_response "clean_duplicates" root) {
          message = concat ("scan root " ∷ path_text root ∷ " does not exist" ∷ []);
        }))
    else planned_cleanup root strategy (plan_groups scan strategy max_operations (grouped scan) [])
