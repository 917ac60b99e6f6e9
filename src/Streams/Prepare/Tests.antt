-- ===== src/Streams/Prepare/Tests.antt =====
-- A request for a model of a fixed voice.
use nano_qwen3tts_vllm.Common.{ℕ, ◌≡◌, refl, String, Bool, true, Option, none, some, pos}
use nano_qwen3tts_vllm.Voices.Rows.{init}
use nano_qwen3tts_vllm.Voices.Service.{http}
use nano_qwen3tts_vllm.Streams.Prepare.{PrepareForm, App, prepare_stream}

abbrev same_text : String → String
same_text s = s

abbrev empty_text : String → String
empty_text name = ""

abbrev always : String → Bool
always path = true

abbrev hears : String → Option String
hears path = some "hello"

abbrev silence : String → Option (ℕ × ℕ)
silence path = some (0, 24000)

abbrev no_int : String → Option ℕ
no_int text = none

abbrev form : PrepareForm
form = record {
  model = "Qwen/Qwen3-TTS-12Hz-0.6B-CustomVoice";
  text = "hello";
  language = "English";
  temperature = pos 900;
  instruction = "";
  speaker = "Vivian";
  ref_audio = none;
  ref_text = "";
  tenant_id = "t";
  channel_name = "";
  author = "";
  user_id = "";
  request_id = "";
  event_id = "";
}

abbrev app : App
app = record { scheduler = nano_qwen3tts_vllm.Streams.State.init 2 4 0; store = init 0 }

cold_is_refused :
    prepare_stream same_text always hears silence no_int same_text empty_text 1 0 "s" app
      (record form { temperature = pos 0 })
    ≡ (http 400, app)
unfolding prepare_stream
cold_is_refused = refl

-- A request for a base model with an upload of audio 7.
abbrev cloning : PrepareForm
cloning = record form {
  model = "Qwen/Qwen3-TTS-12Hz-0.6B-Base";
  ref_audio = some (record { audio = some (7, 24000); tmp_path = "tmp.wav" });
}
