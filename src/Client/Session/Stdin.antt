-- ===== src/Client/Session/Stdin.antt =====
-- `MirrorSession::feed_stdin` and `on_winch`: keys typed and window sizes.
use rumsh.Prelude.{
  ℕ, Bool, true, false, not, ◌&&◌, ◌||◌, List, [], ◌∷◌, ◌++◌, ok, err, ltb, ◌==◌, is_empty,
  if◌then◌else◌,
}
use rumsh.Protocol.Codec.Interface.{PacketCodec}
use rumsh.Client.Floats.{F32}
use rumsh.Client.Escape.{
  EscapeCommand, InterpreterResult, send_bytes, command, consume, suspend, help, toggle_overlay,
  handle_byte,
}
use rumsh.Client.Terminal.{mark_dirty, predict_input, abort_prediction}
use rumsh.Client.Terminal
use rumsh.Client.Session.State.{Mirror, ClientAction, Answer, with_mirror, add_actions}
use rumsh.Client.Session.State.ClientAction.{send_packet, paint, show_help}
use rumsh.Client.Session.Prepare.{Prepared, prepare_keystrokes, prepare_resize}

-- `u8::is_ascii_control`.
abbrev pub is_ascii_control : ℕ → Bool
is_ascii_control b = ltb b 32 || b == 127

abbrev pub all_printable : List ℕ → Bool
all_printable [] = true
all_printable (b ∷ bs) = not (is_ascii_control b) && all_printable bs

module _ (f32 : F32) (pc : PacketCodec) where
  -- The loop over the bytes; `done` is the early return of `~.`, which drops the bytes before it.
  pub record Scan : Type 0 where
    pub session : Mirror f32 pc
    pub bytes_to_send : List ℕ
    pub actions : List ClientAction
    pub done : Bool

  pub interpret : Scan → InterpreterResult → Scan
  interpret s (send_bytes bs) = record s { bytes_to_send = s.bytes_to_send ++ bs }
  interpret s consume = s
  interpret s (command EscapeCommand.disconnect) = record s {
    actions = s.actions ++ ClientAction.disconnect ∷ [];
    done = true;
  }
  interpret s (command suspend) = record s {
    session = record s.session { mirror = mark_dirty s.session.mirror };
    actions = s.actions ++ ClientAction.suspend ∷ [];
  }
  interpret s (command help) = record s {
    session = record s.session { mirror = mark_dirty s.session.mirror };
    actions = s.actions ++ show_help ∷ [];
  }
  interpret s (command toggle_overlay) = record s {
    session = record s.session { mirror = Terminal.toggle_overlay s.session.mirror };
    actions = s.actions ++ paint ∷ [];
  }

  pub scan_byte : Scan → ℕ → Scan
  unfolding interpret
  scan_byte s b =
      let (state, result) = handle_byte s.session.interpreter b in
      interpret (record s { session = record s.session { interpreter = state } }) result

  pub scan : List ℕ → Scan → Scan
  unfolding scan_byte
  scan [] s = s
  scan (b ∷ bs) s = let next = scan bs (scan_byte s b) in if s.done then s else next

  -- The prediction and the packet, once the packet is sealed.
  pub echo_keys : List ℕ → Prepared f32 pc → Answer f32 pc
  echo_keys bytes (self, err e) = (self, err e)
  echo_keys bytes (self, ok packet_bytes) =
      let sent : List ClientAction = send_packet packet_bytes ∷ [] in
      let predicted =
        with_mirror f32 pc self (predict_input self.mirror bytes self.seq_num)
          λ s. (s, ok (paint ∷ sent)) in
      if self.is_echo_enabled && all_printable bytes then predicted else (self, ok sent)

  pub send_scanned : Scan → ℕ → Answer f32 pc
  unfolding echo_keys
  send_scanned s now =
      let sent =
        add_actions f32 pc s.actions
          (echo_keys s.bytes_to_send (prepare_keystrokes f32 pc s.session s.bytes_to_send now)) in
      if s.done || is_empty s.bytes_to_send then (s.session, ok s.actions) else sent

  unfoldable pub feed_stdin : Mirror f32 pc → List ℕ → ℕ → Answer f32 pc
  unfolding scan send_scanned
  feed_stdin self buf now =
      send_scanned
        (scan buf (record { session = self; bytes_to_send = []; actions = []; done = false })) now

  pub winch_prepared : Prepared f32 pc → Answer f32 pc
  winch_prepared (self, err e) = (self, err e)
  winch_prepared (self, ok packet_bytes) =
      with_mirror f32 pc self (abort_prediction self.mirror)
        λ s. (record s { mirror = mark_dirty s.mirror }, ok (send_packet packet_bytes ∷ paint ∷ []))

  unfoldable pub on_winch : Mirror f32 pc → ℕ → ℕ → ℕ → Answer f32 pc
  unfolding winch_prepared
  on_winch self cols rows now = winch_prepared (prepare_resize f32 pc self cols rows now)
