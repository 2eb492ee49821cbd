-- ===== src/Sender/Url.antt =====
-- sender_factory.go: what `GetURL` makes of a template with the five placeholders.
use ffstream.Base.{
  ℕ, fun_ext, zero, suc, ◌≤◌, ◌<◌, sym, ltb→lt, ==_iff, ◌≡◌, refl, ◌∙◌, ap, String, List, [], ◌∷◌,
  ltb, ◌==◌, if◌then◌else◌, All, arith, spell, IsPlain, begins_with, replace_from, replace_all,
  replace-plain, replace-found, replace-other, print_uint, print_onto-IsPlain, Bool-cases, inl, inr,
  false,
}
use ffstream.Command.Templates.{SenderTemplate}
use ffstream.Sender.{SenderKey, print_known, get_url}

-- The placeholders, in the order in which they are filled.
pub data Hole : Type 0 where
  audio_codec : Hole
  audio_rate : Hole
  video_codec : Hole
  video_width : Hole
  video_height : Hole

abbrev order : Hole → ℕ
order audio_codec = 0
order audio_rate = 1
order video_codec = 2
order video_width = 3
order video_height = 4

abbrev marker_tail : Hole → String
marker_tail audio_codec = "{a:0:codec}"
marker_tail audio_rate = "{a:0:rate}"
marker_tail video_codec = "{v:0:codec}"
marker_tail video_width = "{v:0:width}"
marker_tail video_height = "{v:0:height}"

abbrev pub marker : Hole → String
marker h = String.◌∷◌ "$" (marker_tail h)

-- A template is a sequence of texts and placeholders.
pub data Piece : Type 0 where
  text : String → Piece
  hole : Hole → Piece

abbrev pub IsPlainPiece : Piece → Type 0
IsPlainPiece (text s) = IsPlain s
IsPlainPiece (hole h) = Unit {0}

-- The text of a template whose placeholders stand for these values.
abbrev pub render : (Hole → String) → List Piece → String
render values [] = ""
render values (text s ∷ pieces) = spell s (render values pieces)
render values (hole h ∷ pieces) = spell (values h) (render values pieces)

-- What each placeholder stands for.
abbrev pub key_value : (String → String) → SenderKey → Hole → String
key_value canonicalize key audio_codec = canonicalize key.audio_codec
key_value canonicalize key audio_rate = print_known key.audio_sample_rate
key_value canonicalize key video_codec = canonicalize key.video_codec
key_value canonicalize key video_width = print_known key.video_resolution.width
key_value canonicalize key video_height = print_known key.video_resolution.height

marker_tail-IsPlain : (h : Hole) → IsPlain (marker_tail h)
marker_tail-IsPlain audio_codec = omega arith
marker_tail-IsPlain audio_rate = omega arith
marker_tail-IsPlain video_codec = omega arith
marker_tail-IsPlain video_width = omega arith
marker_tail-IsPlain video_height = omega arith

order_bound : (h : Hole) → order h < 5
order_bound audio_codec = omega arith
order_bound _ = omega arith

abbrev hole_at : ℕ → Hole
hole_at zero = audio_codec
hole_at (suc zero) = audio_rate
hole_at (suc (suc zero)) = video_codec
hole_at (suc (suc (suc zero))) = video_width
hole_at _ = video_height

hole_at-order : (h : Hole) → hole_at (order h) ≡ h
hole_at-order audio_codec = refl
hole_at-order _ = refl

order_injective : (h k : Hole) → order h ≡ order k → h ≡ k
order_injective h k e = sym (hole_at-order h) ∙ ap hole_at e ∙ hole_at-order k

-- No placeholder begins with an earlier one.
markers_apart :
    (h k : Hole) (t : String)
    → order h < order k
    → begins_with (marker h) (spell (marker k) t) ≡ false
unfolding begins_with
markers_apart audio_codec audio_rate t h = refl
markers_apart audio_codec video_codec t h = refl
markers_apart audio_codec video_width t h = refl
markers_apart audio_codec video_height t h = refl
markers_apart audio_rate video_codec t h = refl
markers_apart audio_rate video_width t h = refl
markers_apart audio_rate video_height t h = refl
markers_apart video_codec video_width t h = refl
markers_apart video_codec video_height t h = refl
markers_apart video_width video_height t h = refl
markers_apart h k t l = absurd (omega (arith, order_bound k))

module _ (values : Hole → String) where
  -- The texts when the first n placeholders are filled.
  abbrev stage : ℕ → Hole → String
  stage n h = if ltb (order h) n then values h else marker h

  stage_below : (n : ℕ) (h : Hole) → order h < n → stage n h ≡ values h
  stage_below n h l = ground arith

  stage_from : (n : ℕ) (h : Hole) → n ≤ order h → stage n h ≡ marker h
  stage_from n h l = ground arith

  fill_one :
      (h k : Hole) (t : String)
      → (order k < order h → IsPlain (values k))
      → replace_from (marker h) (values h) 0 (spell (stage (order h) k) t)
        ≡ spell (stage (suc (order h)) k) (replace_from (marker h) (values h) 0 t)
  fill_one h k t plain =
      let tail = marker_tail h in
      elim (Bool-cases (ltb (order k) (order h))) [
        | inl b ↦
            let before = ltb→lt (order k) (order h) b in
            rw (stage_below (order h) k before) (
              rw (stage_below (suc (order h)) k (omega arith))
                (replace-plain tail (values h) (values k) t (plain before)))
        | inr nb ↦ elim (Bool-cases (order k == order h)) [
          | inl e ↦
              let same : k ≡ h = order_injective k h ((==_iff (order k) (order h)).0 e) in
              rw same (
                rw (stage_from (order h) h (omega arith)) (
                  rw (stage_below (suc (order h)) h (omega arith))
                    (replace-found tail (values h) t)))
          | inr ne ↦
              let after : order h < order k = ground arith in
              rw (stage_from (order h) k (omega arith)) (
                rw (stage_from (suc (order h)) k (omega arith)) (
                  replace-other tail (values h) (marker_tail k) t (markers_apart h k t after)
                    (marker_tail-IsPlain k)))
        ]
      ]

  fill :
      (h : Hole) (pieces : List Piece)
      → All IsPlainPiece pieces
      → ((k : Hole) → order k < order h → IsPlain (values k))
      → replace_all (render (stage (order h)) pieces) (marker h) (values h)
        ≡ render (stage (suc (order h))) pieces
  unfolding replace_all replace_from
  fill h [] all plain = refl
  fill h (text s ∷ pieces) (p, all) plain =
      replace-plain (marker_tail h) (values h) s (render (stage (order h)) pieces) p
      ∙ ap (spell s) (fill h pieces all plain)
  fill h (hole k ∷ pieces) (p, all) plain =
      fill_one h k (render (stage (order h)) pieces) (plain k)
      ∙ ap (spell (stage (suc (order h)) k)) (fill h pieces all plain)

print_known-IsPlain : (n : ℕ) → IsPlain (print_known n)
unfolding print_known print_uint
print_known-IsPlain n = elim (Bool-cases (n == 0)) [
  | inl e ↦ rw e tt
  | inr e ↦ rw e (print_onto-IsPlain (suc n) n "" tt)
]

key_value-IsPlain :
    (canonicalize : String → String) (key : SenderKey)
    → IsPlain (canonicalize key.audio_codec)
    → IsPlain (canonicalize key.video_codec)
    → (h : Hole) → order h < 4
    → IsPlain (key_value canonicalize key h)
key_value-IsPlain canonicalize key audio video audio_codec l = audio
key_value-IsPlain canonicalize key audio video audio_rate l =
    print_known-IsPlain key.audio_sample_rate
key_value-IsPlain canonicalize key audio video video_codec l = video
key_value-IsPlain canonicalize key audio video video_width l =
    print_known-IsPlain key.video_resolution.width
key_value-IsPlain canonicalize key audio video video_height l = absurd (omega arith)

-- The address of a template, written as texts and placeholders, is the template with every
-- placeholder replaced by what the key says of it, wherever and however often it stands, where a
-- number that is 0 is left empty. No text of the template and no name of a codec has a dollar sign.
pub get_url-render :
    (canonicalize : String → String) (t : SenderTemplate) (key : SenderKey) (pieces : List Piece)
    → t.url_template ≡ render marker pieces
    → All IsPlainPiece pieces
    → IsPlain (canonicalize key.audio_codec)
    → IsPlain (canonicalize key.video_codec)
    → get_url canonicalize t key ≡ render (key_value canonicalize key) pieces
unfolding get_url
get_url-render canonicalize t key pieces e all audio video =
    let values = key_value canonicalize key in
    let put : Hole → String → String = λ h url. replace_all url (marker h) (values h) in
    let step : (h : Hole)
        → put h (render (stage values (order h)) pieces)
          ≡ render (stage values (suc (order h))) pieces =
      λ h. fill values h pieces all (λ k before.
        key_value-IsPlain canonicalize key audio video k (omega (arith, order_bound h))) in
    ap
      (λ url.
        put video_height (put video_width (put video_codec (put audio_rate (put audio_codec url)))))
      (e
        ∙ ap (λ texts. render texts pieces)
            (sym (fun_ext (λ h. stage_from values 0 h (omega arith)))))
    ∙ ap (λ url. put video_height (put video_width (put video_codec (put audio_rate url))))
        (step audio_codec)
    ∙ ap (λ url. put video_height (put video_width (put video_codec url))) (step audio_rate)
    ∙ ap (λ url. put video_height (put video_width url)) (step video_codec)
    ∙ ap (put video_height) (step video_width)
    ∙ step video_height
    ∙ ap (λ texts. render texts pieces) (fun_ext (λ h. stage_below values 5 h (order_bound h)))
