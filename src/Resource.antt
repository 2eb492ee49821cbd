-- ===== src/Resource.antt =====
-- pkg/ffstream/resource.go: an input or output address with its options, and its priority.
pub mod Groups
use ffstream.Base.{
  ℕ, String, Bool, true, false, Option, none, some, List, [], ◌∷◌, ◌++◌, ℤ, snoc, str_eq,
  parse_uint, ltb, ◌==◌, ◌||◌, if◌then◌else◌,
}

-- `avptypes.DictionaryItem`
pub record DictionaryItem : Type 0 where
  pub key : String
  pub value : String

-- The fields of `kernel.InputConfig` that the program uses.
pub record InputConfig : Type 0 where
  pub custom_options : List DictionaryItem
  pub force_start_pts : Option ℤ
  pub force_start_dts : Option ℤ

pub record Resource : Type 0 where
  pub url : String
  pub input_config : InputConfig

-- A resource whose config has these options and nothing else.
unfoldable pub resource : String → List DictionaryItem → Resource
resource url opts = record {
  url = url;
  input_config = record { custom_options = opts; force_start_pts = none; force_start_dts = none };
}

-- The loop of `GetFallbackPriority`: a value that is no number is logged and passed over.
unfoldable pub priority_of : List DictionaryItem → ℕ
unfolding parse_uint
priority_of [] = 0
priority_of (item ∷ items) =
    let rest = priority_of items in
    if str_eq item.key "fallback_priority"
    then elim (parse_uint 64 item.value) [ none ↦ rest | some i ↦ i ]
    else rest

unfoldable pub get_fallback_priority : Resource → ℕ
unfolding priority_of
get_fallback_priority r = priority_of r.input_config.custom_options

-- `map[uint]Resources`, in no order
abbrev pub GroupMap : Type 0
GroupMap = List (ℕ × List Resource)

-- `groupsByPriority[p]`; a missing key gives the nil slice.
unfoldable pub group_at : GroupMap → ℕ → List Resource
group_at [] p = []
group_at ((q, rs) ∷ groups) p = if q == p then rs else group_at groups p

-- `groupsByPriority[p] = append(groupsByPriority[p], r)`
unfoldable pub append_at : GroupMap → ℕ → Resource → GroupMap
append_at [] p r = (p, r ∷ []) ∷ []
append_at ((q, rs) ∷ groups) p r =
    let rest = append_at groups p r in if q == p then (q, snoc rs r) ∷ groups else (q, rs) ∷ rest

-- The membership test of the map `seen`, whose keys are the priorities so far.
unfoldable pub seen : List ℕ → ℕ → Bool
seen [] p = false
seen (q ∷ qs) p = q == p || seen qs p

-- The first loop of `ByFallbackPriority`
unfoldable pub collect_groups : List Resource → GroupMap → List ℕ → GroupMap × List ℕ
unfolding get_fallback_priority append_at seen
collect_groups [] groups priorities = (groups, priorities)
collect_groups (r ∷ rs) groups priorities =
    let p = get_fallback_priority r in
    collect_groups rs (append_at groups p r)
      (if seen priorities p then priorities else snoc priorities p)

-- `slices.Sort`
unfoldable pub insert : ℕ → List ℕ → List ℕ
insert p [] = p ∷ []
insert p (q ∷ qs) = let rest = insert p qs in if ltb q p then q ∷ rest else p ∷ q ∷ qs

unfoldable pub sort : List ℕ → List ℕ
unfolding insert
sort [] = []
sort (p ∷ ps) = insert p (sort ps)

-- The second loop of `ByFallbackPriority`
unfoldable pub groups_in_order : GroupMap → List ℕ → List (List Resource)
unfolding group_at
groups_in_order groups [] = []
groups_in_order groups (p ∷ ps) = group_at groups p ∷ groups_in_order groups ps

unfoldable pub by_fallback_priority : List Resource → List (List Resource)
unfolding collect_groups sort groups_in_order
by_fallback_priority [] = []
by_fallback_priority (r ∷ rs) =
    let (groups, priorities) = collect_groups (r ∷ rs) [] [] in
    groups_in_order groups (sort priorities)
