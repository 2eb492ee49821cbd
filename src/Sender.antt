-- ===== src/Sender.antt =====
-- pkg/ffstream/sender_factory.go: the address of an output, from its template, and the outputs that
-- the multiplexer asks for.
pub mod Url
pub mod Output
pub mod Retry
use ffstream.Base.{ℕ, String, ◌==◌, if◌then◌else◌, print_uint, replace_all}
use ffstream.Transcoder.{Resolution}
use ffstream.Command.Templates.{SenderTemplate}

-- The library's `streammux.SenderKey`
pub record SenderKey : Type 0 where
  pub audio_codec : String
  pub audio_sample_rate : ℕ
  pub video_codec : String
  pub video_resolution : Resolution

-- A number that is not known is left empty.
unfoldable pub print_known : ℕ → String
unfolding print_uint
print_known n = if n == 0 then "" else print_uint n

-- `canonicalize` is the library's `codec.Name.Canonicalize`, for an encoder.
unfoldable pub get_url : (String → String) → SenderTemplate → SenderKey → String
unfolding replace_all print_known
get_url canonicalize t key =
    let rate = print_known key.audio_sample_rate in
    let width = print_known key.video_resolution.width in
    let height = print_known key.video_resolution.height in
    let url = replace_all t.url_template "${a:0:codec}" (canonicalize key.audio_codec) in
    let url' = replace_all url "${a:0:rate}" rate in
    let url'' = replace_all url' "${v:0:codec}" (canonicalize key.video_codec) in
    let url''' = replace_all url'' "${v:0:width}" width in replace_all url''' "${v:0:height}" height
