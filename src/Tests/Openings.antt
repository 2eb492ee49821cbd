-- ===== src/Tests/Openings.antt =====
-- Opening the resources of a priority, over a library that opens every address but one.
use ffstream.Base.{
  ℕ, suc, ◌+◌, ◌-◌, ◌==◌, ◌≡◌, refl, String, str_eq, Option, none, some, List, [], ◌∷◌,
  if◌then◌else◌, ℤ, subst, Bool-cases, inl, inr, negsuc, err,
}
use ffstream.Resource.{resource}
use ffstream.Stream.{FfStream}
use ffstream.Stream.Factory.{InputFactory, new_input_factory, cannot_open}
use ffstream.Stream.Inputs.{get_resources, int_lt}
use ffstream.Base.{i64, parse_int}
use ffstream.Stream.Opening.{OpeningApi, IsOpeningApi, new_input, open_config, start_of}
use ffstream.Stream.Opening.Laws.{IsLeft, new_input_lem}
use ffstream.Tests.Apis.{inputs_api, empty_stream}

-- The world is the next pointer with how often each is open.
abbrev open_next : ℕ × (ℕ → ℕ) → String → (ℕ × (ℕ → ℕ)) × Option ℕ
open_next (next, count) url =
    if str_eq url "lost.ts"
    then ((next, count), none)
    else ((suc next, λ i. count i + (if next == i then 1 else 0)), some next)

abbrev opening_api : OpeningApi
opening_api = record {
  World = ℕ × (ℕ → ℕ);
  pts_keep = negsuc 0;
  new_input_from_url = λ w url cfg. open_next w url;
  close = λ w input. (w.0, λ i. w.1 i - (if input == i then 1 else 0));
}

abbrev IsCounted : ℕ × (ℕ → ℕ) → ℕ → (ℕ × (ℕ → ℕ)) × Option ℕ → Type 0
IsCounted w i (w', none) = w'.1 i ≡ w.1 i
IsCounted w i (w', some input) = w'.1 i ≡ w.1 i + (if input == i then 1 else 0)

open_next-IsCounted : (w : ℕ × (ℕ → ℕ)) (url : String) (i : ℕ) → IsCounted w i (open_next w url)
open_next-IsCounted w url i = elim (Bool-cases (str_eq url "lost.ts")) [
  | inl e ↦ rw e refl
  | inr e ↦ rw e refl
]

opening_lawful : IsOpeningApi opening_api
opening_lawful = record {
  open_inputs = λ w i. w.1 i;
  opened = λ w w' url cfg input i h. subst (IsCounted w i) h (open_next-IsCounted w url i);
  not_opened = λ w w' url cfg i h. subst (IsCounted w i) h (open_next-IsCounted w url i);
  closed = λ w input i. refl;
}

abbrev two_inputs : FfStream (List InputFactory) (ℤ × ℤ)
two_inputs = record empty_stream {
  inputs = new_input_factory 0 ∷ [];
  inputs_info = (resource "a.ts" [] ∷ resource "lost.ts" [] ∷ []) ∷ [];
}

lost_test :
    (new_input opening_api inputs_api (7, λ i. 0) two_inputs (new_input_factory 0)).2
    ≡ err (cannot_open "lost.ts")
unfolding open_config new_input get_resources int_lt i64 resource new_input_factory
lost_test = refl

start_test : start_of opening_api "-12" ≡ some (negsuc 11)
unfolding start_of parse_int
start_test = refl

new_input_lem_example :
    IsLeft opening_api opening_lawful
      (7, λ i. 0)
      (new_input_factory 0)
      (get_resources inputs_api (new_input_factory 0) two_inputs)
      (new_input opening_api inputs_api (7, λ i. 0) two_inputs (new_input_factory 0))
new_input_lem_example =
    new_input_lem opening_api opening_lawful inputs_api (7, λ i. 0) two_inputs (new_input_factory 0)
