-- ===== src/Convert/Counters.antt =====
-- goconv/counters.go: the sums of counters, and `GetStats` of pkg/ffstream/ffstream.go.
use mathlib.Core.Logic.{∥∥₁_elim}
use mathlib.Core.List.{Perm, Permᴰ}
use ffstream.Base.{ℕ, ◌≡◌, refl, ◌∙◌, sym, ap, ap₂, Option, none, some, List, [], ◌∷◌, add64, arith}

-- `NodeCountersItem`, two `uint64`
pub record Item : Type 0 where
  pub count : ℕ
  pub bytes : ℕ

pub record SubSection : Type 0 where
  pub unknown : Option Item
  pub other : Option Item
  pub video : Option Item
  pub audio : Option Item

pub record Section : Type 0 where
  pub packets : Option SubSection
  pub frames : Option SubSection

-- The sections of `NodeCounters` that `GetStats` sums, and the one that it copies.
pub record NodeCounters : Type 0 where
  pub received : Option Section
  pub processed : Option Section
  pub missed : Option Section
  pub generated : Option Section
  pub sent : Option Section

-- The tests for nil with which the three functions begin.
abbrev pub merge : {A : Type 0} → (A → A → A) → Option A → Option A → Option A
merge f none b = b
merge f (some a) none = some a
merge f (some a) (some b) = some (f a b)

-- `AddNodeCountersItem`
unfoldable pub add_item : Option Item → Option Item → Option Item
unfolding add64
add_item = merge (λ a b. record { count = add64 a.count b.count; bytes = add64 a.bytes b.bytes })

-- `AddNodeCountersSubSection`
unfoldable pub add_sub_section : Option SubSection → Option SubSection → Option SubSection
add_sub_section = merge λ a b. record {
  unknown = add_item a.unknown b.unknown;
  other = add_item a.other b.other;
  video = add_item a.video b.video;
  audio = add_item a.audio b.audio;
}

-- `AddNodeCountersSection`
unfoldable pub add_section : Option Section → Option Section → Option Section
add_section = merge λ a b. record {
  packets = add_sub_section a.packets b.packets;
  frames = add_sub_section a.frames b.frames;
}

unfoldable pub zero_section : Option Section
zero_section = some (record { packets = none; frames = none })

-- The body of the callback of `Outputs.Range`.
unfoldable pub add_output : NodeCounters → NodeCounters → NodeCounters
add_output r output = record r {
  processed = add_section r.processed output.processed;
  missed = add_section r.missed output.missed;
  generated = add_section r.generated output.generated;
  sent = add_section r.sent output.sent;
}

unfoldable pub add_outputs : NodeCounters → List NodeCounters → NodeCounters
add_outputs r [] = r
add_outputs r (output ∷ outputs) = add_outputs (add_output r output) outputs

-- `GetStats` of a stream that is not nil: the counters of the inputs, if there are any, and of the
-- outputs in the order in which `Range` visits them.
unfoldable pub get_stats : Option NodeCounters → List NodeCounters → NodeCounters
get_stats inputs outputs =
    let received : Option Section = elim inputs [ none ↦ zero_section | some c ↦ c.received ] in
    let r : NodeCounters = record {
      received = received;
      processed = zero_section;
      missed = zero_section;
      generated = zero_section;
      sent = zero_section;
    } in
    add_outputs r outputs

merge_comm :
    {A : Type 0} (f : A → A → A)
    → ((a b : A) → f a b ≡ f b a)
    → (a b : Option A) → merge f a b ≡ merge f b a
merge_comm f c none none = refl
merge_comm f c none (some b) = refl
merge_comm f c (some a) none = refl
merge_comm f c (some a) (some b) = ap some (c a b)

merge_assoc :
    {A : Type 0} (f : A → A → A)
    → ((a b c : A) → f (f a b) c ≡ f a (f b c))
    → (a b c : Option A) → merge f (merge f a b) c ≡ merge f a (merge f b c)
merge_assoc f h none b c = refl
merge_assoc f h (some a) none c = refl
merge_assoc f h (some a) (some b) none = refl
merge_assoc f h (some a) (some b) (some c) = ap some (h a b c)

add_item_comm : (a b : Option Item) → add_item a b ≡ add_item b a
unfolding add_item
add_item_comm = merge_comm _ (λ a b. ground arith)

add_item_assoc : (a b c : Option Item) → add_item (add_item a b) c ≡ add_item a (add_item b c)
unfolding add_item
add_item_assoc = merge_assoc _ (λ a b c. ground arith)

add_sub_section_comm : (a b : Option SubSection) → add_sub_section a b ≡ add_sub_section b a
unfolding add_sub_section
add_sub_section_comm = merge_comm _ λ a b. ground (
  arith,
  add_item_comm a.unknown b.unknown,
  add_item_comm a.other b.other,
  add_item_comm a.video b.video,
  add_item_comm a.audio b.audio,
)

add_sub_section_assoc :
    (a b c : Option SubSection)
    → add_sub_section (add_sub_section a b) c ≡ add_sub_section a (add_sub_section b c)
unfolding add_sub_section
add_sub_section_assoc = merge_assoc _ λ a b c. ground (
  arith,
  add_item_assoc a.unknown b.unknown c.unknown,
  add_item_assoc a.other b.other c.other,
  add_item_assoc a.video b.video c.video,
  add_item_assoc a.audio b.audio c.audio,
)

-- Adding sections is commutative and associative, with sums modulo 2 ^ 64, and nil adds nothing.
pub add_section_laws :
    (a b c : Option Section)
    → (add_section a b ≡ add_section b a)
      × (add_section (add_section a b) c ≡ add_section a (add_section b c))
      × (add_section a none ≡ a)
unfolding add_section
add_section_laws a b c = (
  merge_comm _
      (λ x y.
        ground
          (arith, add_sub_section_comm x.packets y.packets, add_sub_section_comm x.frames y.frames))
      a b,
  merge_assoc _
      (λ x y z. ground (
        arith,
        add_sub_section_assoc x.packets y.packets z.packets,
        add_sub_section_assoc x.frames y.frames z.frames,
      ))
      a b c,
  right a,
)
  where
    right : (a : Option Section) → add_section a none ≡ a
    right none = refl
    right (some a) = refl

add_section_swap :
    (r a b : Option Section) → add_section (add_section r a) b ≡ add_section (add_section r b) a
add_section_swap r a b =
    (add_section_laws r a b).1
    ∙ ap (add_section r) (add_section_laws a b a).0
    ∙ sym (add_section_laws r b a).1

add_output_comm :
    (r a b : NodeCounters) → add_output (add_output r a) b ≡ add_output (add_output r b) a
unfolding add_output
add_output_comm r a b = ground (
  arith,
  add_section_swap r.processed a.processed b.processed,
  add_section_swap r.missed a.missed b.missed,
  add_section_swap r.generated a.generated b.generated,
  add_section_swap r.sent a.sent b.sent,
)

add_outputs-Permᴰ :
    {xs ys : List NodeCounters}
    → Permᴰ xs ys
    → (r : NodeCounters) → add_outputs r xs ≡ add_outputs r ys
unfolding add_outputs
add_outputs-Permᴰ Permᴰ.nil r = refl
add_outputs-Permᴰ (Permᴰ.cons {b = b} {l₁ = l₁} e p) r =
    ap (λ o. add_outputs (add_output r o) l₁) e ∙ add_outputs-Permᴰ p (add_output r b)
add_outputs-Permᴰ (Permᴰ.swap {a = a} {b = b} {l = l} e f) r =
    ap (λ t. add_outputs t l)
      (add_output_comm r a b ∙ ap₂ (λ x y. add_output (add_output r x) y) f e)
add_outputs-Permᴰ (Permᴰ.trans p q) r = add_outputs-Permᴰ p r ∙ add_outputs-Permᴰ q r

NodeCounters-set : IsSet NodeCounters
NodeCounters-set = hlevel

-- The statistics do not depend on the order in which the outputs are visited.
pub get_stats-perm :
    (inputs : Option NodeCounters) (xs ys : List NodeCounters)
    → Perm xs ys
    → get_stats inputs xs ≡ get_stats inputs ys
unfolding get_stats
get_stats-perm inputs xs ys p = ∥∥₁_elim p (NodeCounters-set _ _) (λ d. add_outputs-Permᴰ d _)
