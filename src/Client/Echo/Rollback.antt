-- ===== src/Client/Echo/Rollback.antt =====
-- `abort` after any typing.
use mathlib.Core.List.{append-nil, append_assoc}
use rumsh.Prelude.{
  ℕ, ◌+◌, ◌*◌, ◌-◌, ◌%◌, ◌<◌, ◌≡◌, refl, sym, ap, ◌∙◌, ◌&&◌, ◌||◌, List, [], ◌∷◌, ◌++◌, Result, ok,
  ◌>>=◌, ltb, leb, ◌==◌, if◌then◌else◌, arith, length, get_elem?, set, length-set,
  get_elem?-set_self, get_elem?-set_ne, get_elem?_ext, Bool-cases, inl, inr, lt→ltb, ==→≡,
}
use rumsh.Protocol.Grid.{LocalCellData, default_cell, plain_cell, u16_mod}
use rumsh.Client.Frame.{TerminalFrame, IsValid}
use rumsh.Client.Echo.{
  OldCell, PredictionEntry, LocalEchoEngine, Drawing, Echo, step_right, on_screen, backspace, print,
  apply_byte, apply_bytes, apply_keystrokes, is_printable, line_down, restore_cells,
  restore_entries, abort,
}
use rumsh.Client.Echo.Undo.{covers, drawn, Kept, Undoes, draw_cell-Undoes, position-lt}

module _ {F : Type 0} (f : TerminalFrame F) (v : IsValid f) where
  -- A step of the loop that can be undone.
  abbrev Drawn : Result (Drawing F) → Type 0
  Drawn r =
      (cells : List LocalCellData) × (x : ℕ) × (y : ℕ) × (old : List OldCell) × (r
        ≡ ok (drawn f cells x y, old))
      × Undoes f cells old

  backspace-Drawn :
      (cells : List LocalCellData) (x y : ℕ) (old : List OldCell)
      → Undoes f cells old
      → Drawn (backspace (drawn f cells x y) old)
  unfolding backspace on_screen
  backspace-Drawn cells x y old u = elim (Bool-cases (ltb 0 x)) [
    | inr e ↦ (cells, x, y, old, rw e, u)
    | inl e ↦ elim (Bool-cases (ltb (x - 1) f.cols && ltb y f.rows)) [
      | inr off ↦ (cells, x - 1, y, old, rw (e, off), u)
      | inl on ↦
          let (cells', old', made, u') =
            draw_cell-Undoes f v cells (x - 1) y old (x - 1) y default_cell (ground arith)
              (ground arith) u in
          (cells', x - 1, y, old', rw (e, on) made, u')
    ]
  ]

  step_right-Drawn :
      (cells : List LocalCellData) (x y : ℕ) (old : List OldCell) (r : Result (Drawing F))
      → r ≡ ok (step_right (drawn f cells x y), old)
      → Undoes f cells old
      → Drawn r
  unfolding step_right
  step_right-Drawn cells x y old r e u = elim (Bool-cases (leb f.cols ((x + 1) % u16_mod))) [
    | inl wrap ↦ (cells, 0, line_down y f.rows, old, e ∙ rw wrap, u)
    | inr stay ↦ (cells, (x + 1) % u16_mod, y, old, e ∙ rw stay, u)
  ]

  print-Drawn :
      (cells : List LocalCellData) (x y : ℕ) (old : List OldCell) (b : ℕ)
      → Undoes f cells old
      → Drawn (print (drawn f cells x y) old b)
  unfolding print on_screen
  print-Drawn cells x y old b u =
      elim (Bool-cases (is_printable b && (ltb x f.cols && ltb y f.rows))) [
        | inr skip ↦ (cells, x, y, old, rw skip, u)
        | inl go ↦
            let (cells', old', made, u') =
              draw_cell-Undoes f v cells x y old x y (plain_cell b) (ground arith) (ground arith)
                u in
            step_right-Drawn cells' x y old' _ (rw go (rw made)) u'
      ]

  apply_byte-Drawn :
      (cells : List LocalCellData) (x y : ℕ) (old : List OldCell) (b : ℕ)
      → Undoes f cells old
      → Drawn (apply_byte (drawn f cells x y) old b)
  unfolding apply_byte
  apply_byte-Drawn cells x y old b u = elim (Bool-cases (b == b'\r')) [
    | inl cr ↦ (cells, 0, y, old, rw cr, u)
    | inr not_cr ↦ elim (Bool-cases (b == b'\n')) [
      | inl lf ↦ (cells, 0, line_down y f.rows, old, rw (not_cr, lf), u)
      | inr not_lf ↦ elim (Bool-cases (b == 0x08 || b == 0x7f)) [
        | inl bs ↦ rw (not_cr, not_lf, bs) (backspace-Drawn cells x y old u)
        | inr not_bs ↦ rw (not_cr, not_lf, not_bs) (print-Drawn cells x y old b u)
      ]
    ]
  ]

  pub apply_bytes-Drawn :
      (cells : List LocalCellData) (x y : ℕ) (old : List OldCell) (bs : List ℕ)
      → Undoes f cells old
      → Drawn (apply_bytes (drawn f cells x y) old bs)
  unfolding apply_bytes
  apply_bytes-Drawn cells x y old [] u = (cells, x, y, old, refl, u)
  apply_bytes-Drawn cells x y old (b ∷ bs) u =
      let (cells', x', y', old', made, u') = apply_byte-Drawn cells x y old b u in
      rw made (apply_bytes-Drawn cells' x' y' old' bs u')

  -- Every covered cell gets its old content back.
  restore_cells-covers :
      (old : List OldCell) (cells : List LocalCellData) (x y : ℕ)
      → Kept f old
      → length cells ≡ length f.cell_cache
      → (out : List LocalCellData) × (restore_cells old (drawn f cells x y) ≡ ok (drawn f out x y))
        × (length out ≡ length f.cell_cache)
        × ((i : ℕ)
            → get_elem? out i
              ≡ (if covers f.cols old i then get_elem? f.cell_cache i else get_elem? cells i))
  unfolding restore_cells
  restore_cells-covers [] cells x y k size = (cells, refl, size, λ i. refl)
  restore_cells-covers (o ∷ os) cells x y ((ox, oy, at), k) size =
      let (out, made, osize, outs) = restore_cells-covers os cells x y k size in
      let i = o.y * f.cols + o.x in
      let lt : i < length out = rw osize (position-lt f v o.x o.y ox oy) in
      (
        set out i o.cell,
        rw made (rw (lt→ltb o.x f.cols ox, lt→ltb o.y f.rows oy, lt→ltb i (length out) lt)),
        length-set out i o.cell ∙ osize,
        λ j. elim (Bool-cases (i == j)) [
          | inl here ↦ rw (here, ← ==→≡ i j here) (get_elem?-set_self out i o.cell lt ∙ sym at)
          | inr apart ↦ rw apart (get_elem?-set_ne out i j o.cell (λ e. ground arith) ∙ outs j)
        ],
      )

  restore_cells-Undoes :
      (cells : List LocalCellData) (x y : ℕ) (old : List OldCell)
      → Undoes f cells old
      → restore_cells old (drawn f cells x y) ≡ ok (drawn f f.cell_cache x y)
  restore_cells-Undoes cells x y old u =
      let (out, made, osize, outs) = restore_cells-covers old cells x y u.kept u.size in
      let all : out ≡ f.cell_cache = get_elem?_ext out f.cell_cache λ i.
        elim (Bool-cases (covers f.cols old i)) [
          | inl in_old ↦ outs i ∙ rw in_old
          | inr fresh ↦ outs i ∙ rw fresh (u.same i fresh)
        ] in
      made ∙ ap (λ cs. ok (drawn f cs x y)) all

  -- One batch: it succeeds, and its entry takes the frame back.
  record Typed (engine : LocalEchoEngine) (r : Result (Echo F)) : Type 0 where
    frame : TerminalFrame F
    entry : PredictionEntry
    made :
        r
        ≡ ok (record engine { unconfirmed_inputs = engine.unconfirmed_inputs ++ entry ∷ [] }, frame)
    valid : IsValid frame
    undone : restore_entries (entry ∷ []) frame ≡ ok f

  apply_keystrokes-Typed :
      (engine : LocalEchoEngine) (bytes : List ℕ) (seq : ℕ)
      → Typed engine (apply_keystrokes engine f bytes seq)
  unfolding apply_keystrokes restore_entries
  apply_keystrokes-Typed engine bytes seq =
      let start : Undoes f f.cell_cache [] = record {
        size = refl;
        kept = tt;
        same = λ i _. refl;
      } in
      let (cells, x, y, old, made, u) =
        apply_bytes-Drawn f.cell_cache f.cursor_x f.cursor_y [] bytes start in
      record {
        frame = drawn f cells x y;
        entry = record {
          seq_num = seq;
          bytes = bytes;
          epoch = engine.current_epoch;
          old_cursor_x = f.cursor_x;
          old_cursor_y = f.cursor_y;
          old_cells = old;
        };
        made = rw made;
        valid = record { cells_size = u.size ∙ v.cells_size; rows_size = v.rows_size };
        undone = restore_cells-Undoes cells f.cursor_x f.cursor_y old u;
      }

module _ {F : Type 0} where
  -- Batches of keys with their sequence numbers, typed one after another.
  unfoldable pub type_all : List (List ℕ × ℕ) → LocalEchoEngine → TerminalFrame F → Result (Echo F)
  type_all [] engine f = ok (engine, f)
  type_all ((bytes, seq) ∷ rest) engine f = do
    (engine', g) ← apply_keystrokes engine f bytes seq
    type_all rest engine' g

  restore_entries-cons :
      (e : PredictionEntry) (es : List PredictionEntry) (f g h : TerminalFrame F)
      → restore_entries es h ≡ ok g
      → restore_entries (e ∷ []) g ≡ ok f
      → restore_entries (e ∷ es) h ≡ ok f
  unfolding restore_entries
  restore_entries-cons e es f g h p q = rw p q

  type_all-entries :
      (batches : List (List ℕ × ℕ)) (engine : LocalEchoEngine) (f : TerminalFrame F)
      → IsValid f
      → (es : List PredictionEntry) × (g : TerminalFrame F) × (type_all batches engine f
          ≡ ok (record engine { unconfirmed_inputs = engine.unconfirmed_inputs ++ es }, g))
        × (restore_entries es g ≡ ok f)
  unfolding type_all restore_entries
  type_all-entries [] engine f v = ([], f, rw (append-nil engine.unconfirmed_inputs), refl)
  type_all-entries ((bytes, seq) ∷ rest) engine f v =
      let t = apply_keystrokes-Typed f v engine bytes seq in
      let engine' = record engine {
        unconfirmed_inputs = engine.unconfirmed_inputs ++ t.entry ∷ [];
      } in
      let (es, g, made, undone) = type_all-entries rest engine' t.frame t.valid in
      (
        t.entry ∷ es,
        g,
        rw t.made (
            made
            ∙ ap (λ us. ok (record engine { unconfirmed_inputs = us }, g))
                (append_assoc engine.unconfirmed_inputs (t.entry ∷ []) es)),
        restore_entries-cons t.entry es f t.frame g undone t.undone,
      )

  -- Whatever was typed since an engine with nothing unconfirmed, in any number of batches with
  -- line breaks, backspaces and wraps, neither the typing nor `abort` panics, and `abort` gives
  -- the very frame from before (cells, cursor and all flags), drops every prediction and starts
  -- the next epoch.
  pub abort-type_all :
      (batches : List (List ℕ × ℕ)) (epoch : ℕ) (f : TerminalFrame F)
      → IsValid f
      → (engine : LocalEchoEngine) × (g : TerminalFrame F) × (type_all batches
            (record { unconfirmed_inputs = []; current_epoch = epoch })
            f
          ≡ ok (engine, g))
        × (abort engine g ≡ ok (record { unconfirmed_inputs = []; current_epoch = epoch + 1 }, f))
  unfolding abort
  abort-type_all batches epoch f v =
      let fresh : LocalEchoEngine = record { unconfirmed_inputs = []; current_epoch = epoch } in
      let (es, g, made, undone) = type_all-entries batches fresh f v in
      (record { unconfirmed_inputs = es; current_epoch = epoch }, g, made, rw undone)
