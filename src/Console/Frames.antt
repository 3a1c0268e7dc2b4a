-- ===== src/Console/Frames.antt =====
-- internal/tunnel/console/protocol.go: frames are read back as they were made.
use nephos.Base.{ℕ, ◌≡◌, ◌↔◌, arith, [], ◌∷◌, Str, ok}
use nephos.Console.{frame, input_frame, parse_input_frame, output_frame, parse_output_frame}

input_iff :
    (raw payload : Str) → (parse_input_frame raw ≡ ok payload) ↔ (input_frame payload ≡ ok raw)
unfolding parse_input_frame input_frame frame
input_iff [] payload = ground arith
input_iff (c ∷ rest) payload = ground arith

output_iff :
    (raw : Str) (channel : ℕ) (payload : Str)
    → (parse_output_frame raw ≡ ok (channel, payload)) ↔ (output_frame channel payload ≡ ok raw)
unfolding parse_output_frame output_frame frame
output_iff [] channel payload = ground arith
output_iff (c ∷ rest) channel payload = ground arith

-- ParseInputFrame reads a payload from a message exactly when InputFrame makes that message from
-- the payload, and ParseOutputFrame reads a channel and a payload exactly when OutputFrame makes
-- the message from them.
pub frames_iff :
    (raw : Str) (channel : ℕ) (payload : Str)
    → ((parse_input_frame raw ≡ ok payload) ↔ (input_frame payload ≡ ok raw))
      × ((parse_output_frame raw ≡ ok (channel, payload)) ↔ (output_frame channel payload ≡ ok raw))
frames_iff raw channel payload = (input_iff raw payload, output_iff raw channel payload)
