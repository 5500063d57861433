-- ===== src/Tests/ServerRuns.antt =====
-- A server session over a codec with no framing and a PTY that logs what it gets.
use rumsh.Prelude.{
  panic, ℕ, ◌+◌, ◌≤◌, ◌<◌, ◌≡◌, refl, true, false, List, [], ◌∷◌, ◌++◌, none, Result, ok, err, bail,
  arith,
}
use rumsh.Protocol.{ClientPayload}
use rumsh.Protocol.ClientPayload.{keystrokes, handshake}
use rumsh.Protocol.Codec.Interface.{PacketCodec, OpenedClient}
use rumsh.Server.Interface.{Backend}
use rumsh.Server.Session.Handshakes.{feed_packet_panics}
use rumsh.Server.Session.Packets.{feed_packet}
use rumsh.Server.Session.State.{Session, Action, new}
use rumsh.Server.Session.InOrder.{of_keystrokes, Replies, deliver_run}
use rumsh.Server.Session.Stream.{Carries}
use rumsh.Server.Session.Reliable.{Datagram, arrived, CarriesAll, feed_all, feed_all-delivers}

-- Session, number, acknowledgement, keys.
abbrev open_bare : List ℕ → Result OpenedClient
open_bare (session_id ∷ seq ∷ ack ∷ keys) = ok (
  record { session_id = session_id; seq_num = seq; ack_seq_num = ack; ciphertext = keys },
  keystrokes keys,
  record { wire_len = 3; comp_len = 0; decomp_len = 0 },
)
open_bare other = err bail

abbrev pub bare : PacketCodec
bare = record {
  Codec = Unit {0};
  seal_client = λ c session_id seq ack p. ok (session_id ∷ seq ∷ ack ∷ []);
  open_client = λ c bytes. open_bare bytes;
  seal_server = λ c seq ack p. ok ((seq ∷ ack ∷ []) ∷ []);
  open_server = λ c bytes. (c, ok none);
  get_incomplete_frames = λ c. [];
}

abbrev pub logging : Backend
logging = record {
  Pty = List ℕ;
  write = λ log keys. log ++ keys;
  resize = λ log cols rows. log;
  is_echo_recommended = λ log. true;
  Term = Unit {0};
  term_write = λ t log bytes. (t, log);
  term_resize = λ t cols rows. t;
  update_and_get_state = λ t. (t, err bail);
}

-- Packet `k` holds the key `k`.
abbrev keys_of : ℕ → ClientPayload
keys_of k = keystrokes (k ∷ [])

abbrev datagram : ℕ → Datagram
datagram k = record { bytes = 9 ∷ k ∷ 0 ∷ k ∷ []; seq = k; src_addr = 1; now = 0 }

-- The second packet comes first and once more, the third is lost.
abbrev shuffled : List Datagram
shuffled = datagram 2 ∷ datagram 1 ∷ datagram 2 ∷ datagram 4 ∷ []

datagram-Carries : (k : ℕ) → k < 1000 → Carries bare keys_of tt 9 (datagram k).bytes k
datagram-Carries k low = record {
  wire = record { session_id = 9; seq_num = k; ack_seq_num = 0; ciphertext = k ∷ [] };
  stats = record { wire_len = 3; comp_len = 0; decomp_len = 0 };
  opens = refl;
  number = refl;
  low = omega arith;
  session = refl;
}

shuffled-CarriesAll : CarriesAll bare keys_of tt 9 shuffled
shuffled-CarriesAll = (
  datagram-Carries 2 (omega arith),
  (
    datagram-Carries 1 (omega arith),
    (datagram-Carries 2 (omega arith), (datagram-Carries 4 (omega arith), tt)),
  ),
)

bare-Replies : Replies bare logging
bare-Replies c seq ack = ((seq ∷ ack ∷ []) ∷ [], refl)

-- Keys 1 and 2 reach the PTY, once each and in order.
two_delivered : deliver_run bare logging keys_of 1 2 [] ≡ 1 ∷ 2 ∷ []
two_delivered = refl

feed_all-delivers_example :
    (s : Session bare logging) × (actions : List (Action bare logging)) × (n : ℕ) × (feed_all bare
        logging shuffled
        (new bare logging 9 tt 0 1 tt [] 0)
      ≡ (s, ok actions))
    × (s.pty ≡ deliver_run bare logging keys_of 1 n [])
    × (s.ack_seq_num ≡ 0 + n)
    × (arrived shuffled (0 + 1 + n) ≡ false)
    × ((k : ℕ) → 0 < k → k ≤ 0 + n → arrived shuffled k ≡ true)
feed_all-delivers_example =
    feed_all-delivers bare logging bare-Replies keys_of (λ k. of_keystrokes (k ∷ [])) 9 tt 0 1 tt []
      0 shuffled (omega arith) shuffled-CarriesAll

-- A codec whose every datagram is a handshake of session 9 with number 1.
abbrev greeting : PacketCodec
greeting = record bare {
  open_client = λ c bytes. ok (
    record { session_id = 9; seq_num = 1; ack_seq_num = 0; ciphertext = [] },
    handshake 1 80 24,
    record { wire_len = 3; comp_len = 0; decomp_len = 0 },
  );
}

abbrev greeted_session : Session greeting logging
greeted_session = new greeting logging 9 tt 0 1 tt [] 0

feed_packet_panics_example : (feed_packet greeting logging greeted_session [] 1 0).1 ≡ err panic
unfolding new
feed_packet_panics_example =
    feed_packet_panics greeting logging greeted_session [] 1 0 1 80 24
      (record { session_id = 9; seq_num = 1; ack_seq_num = 0; ciphertext = [] })
      (record { wire_len = 3; comp_len = 0; decomp_len = 0 }) refl (omega arith) refl refl
      (omega arith)
