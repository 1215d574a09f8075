-- ===== src/Agent.antt =====
-- node-stm32f103/application/src/ota_agent.c: sending a packet, and the bytes of the receive loop
-- as the parser sees them. `Uart_Write` and `Uart_ReadByte` are the wire: a list of bytes.
pub mod Transfer
mod Tests
use secure_delta_ota_bootloa.Base.{ℕ, Option, none, some, List, [], ◌∷◌, ◌++◌}
use secure_delta_ota_bootloa.Cobs
use secure_delta_ota_bootloa.Packet.{Packet, serialize, max_raw_size, max_encoded_frame}
use secure_delta_ota_bootloa.Parser.{Parser, Event, push_byte}

abbrev encoded_or_none : Option (List ℕ) → Option (List ℕ)
encoded_or_none none = none
encoded_or_none (some encoded) = some (encoded ++ (0 ∷ []))

abbrev frame_or_none : Option (List ℕ) → Option (List ℕ)
frame_or_none none = none
frame_or_none (some raw) = encoded_or_none (Cobs.encode raw max_encoded_frame)

-- The bytes that `SendPacket` hands to the UART, or `none` where it gives up before.
unfoldable pub send_packet : Packet → Option (List ℕ)
send_packet packet = frame_or_none (serialize packet max_raw_size)

-- The events of the bytes read so far, and the state that the loop goes on with.
pub record Fed : Type 0 where
  pub events : List Event
  pub parser : Parser
  pub packet : Packet

-- Bytes pushed one after the other. The packet that a call fills is handed to the next one, as a
-- local variable of the receive loop would be; its first contents are an argument.
unfoldable pub feed : Parser → List ℕ → Packet → Fed
feed parser [] packet = record { events = []; parser = parser; packet = packet }
feed parser (byte ∷ bytes) packet =
    let pushed = push_byte parser byte packet in
    let later = feed pushed.parser bytes pushed.packet in
    record later { events = pushed.event ∷ later.events }
