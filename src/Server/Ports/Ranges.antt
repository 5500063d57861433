-- ===== src/Server/Ports/Ranges.antt =====
-- What `parse_port_range` accepts, and which port `bind_to_available_port_sync` takes.
use rumsh.Prelude.{
  ℕ, zero, suc, ◌+◌, ◌-◌, ◌≤◌, ◌<◌, ◌≡◌, ◌⊎◌, inl, inr, refl, sym, ap, ◌∙◌, true, [], ◌∷◌, ◌++◌,
  Option, none, some, Result, ok, err, bail, or_fail, ok_of_bind, leb, ltb, ◌==◌, if◌then◌else◌,
  ==→≡, Bool-cases, Option-cases, Text, contains, split, split_by-append, split_by_one, Free,
  Within-Free, parse_u16, show_u16, decimal-Within, parse_u16-show, arith,
}
use rumsh.Server.Ports.{range_parts, two, parse_port_range, bind_from, bind_to_available_port_sync}

contains-append : (d : ℕ) (s t : Text) → contains d (s ++ d ∷ t) ≡ true
contains-append d [] t = ground arith
contains-append d (c ∷ s) t = ground (arith, contains-append d s t)

show_u16-Free : (d n : ℕ) → d ≡ b':' → Free (λ c. c == d) (show_u16 n)
unfolding show_u16
show_u16-Free d n e =
    Within-Free (λ c. c == d) b'0' b'9' (show_u16 n) (λ c lo hi. ground arith) (decimal-Within 5 n)

-- A range written as `start:end` is read back, if its ports are in order, and refused otherwise.
pub parse_port_range-show :
    (start end : ℕ)
    → start < 65536
    → end < 65536
    → parse_port_range (show_u16 start ++ b':' ∷ show_u16 end)
      ≡ (if leb start end then ok (start, end) else err bail)
unfolding parse_port_range
parse_port_range-show start end hs he =
    let here : contains b':' (show_u16 start ++ b':' ∷ show_u16 end) ≡ true =
      contains-append b':' (show_u16 start) (show_u16 end) in
    let parts : split b':' (show_u16 start ++ b':' ∷ show_u16 end)
        ≡ show_u16 start ∷ show_u16 end ∷ [] =
      split_by-append (λ c. c == b':') (show_u16 start) b':' (show_u16 end)
        (show_u16-Free b':' start refl) refl
      ∙ ap (◌∷◌ (show_u16 start))
          (split_by_one (λ c. c == b':') (show_u16 end) (show_u16-Free b':' end refl)) in
    rw here (rw parts (rw (parse_u16-show start hs) (rw (parse_u16-show end he) (ground arith))))

ordered :
    (first last start end : ℕ)
    → if◌then◌else◌ {A = Result (ℕ × ℕ)} (ltb last first) (err bail) (ok (first, last))
      ≡ ok (start, end)
    → start ≤ end
ordered first last start end h = ground arith

-- Whatever text it accepts, the range is not empty.
pub parse_port_range_ordered :
    (s : Text) (start end : ℕ) → parse_port_range s ≡ ok (start, end) → start ≤ end
unfolding parse_port_range
parse_port_range_ordered s start end h =
    let (parts, _, h1) = ok_of_bind (or_fail bail (range_parts s)) _ (start, end) h in
    let (pair, _, h2) = ok_of_bind (or_fail bail (two parts)) _ (start, end) h1 in
    let (first, _, h3) = ok_of_bind (or_fail bail (parse_u16 pair.0)) _ (start, end) h2 in
    let (last, _, h4) = ok_of_bind (or_fail bail (parse_u16 pair.1)) _ (start, end) h3 in
    ordered first last start end h4

module _ {Socket : Type 0} (bind : ℕ → ℕ → Option Socket) where
  -- Every port of the range is tried in order: `port` is the first one that can be bound.
  abbrev pub FirstFree : ℕ → ℕ → ℕ → ℕ → Socket → Type 0
  FirstFree ip start end port socket =
      (start ≤ port)
      × (port ≤ end)
      × (bind ip port ≡ some socket)
      × ((p : ℕ) → start ≤ p → p < port → bind ip p ≡ none)

  abbrev pub NoneFree : ℕ → ℕ → ℕ → Type 0
  NoneFree ip start end = (p : ℕ) → start ≤ p → p ≤ end → bind ip p ≡ none

  -- A port from `start` on is `start` or a later one.
  none_from :
      (ip start p : ℕ)
      → bind ip start ≡ none
      → (start + 1 ≤ p → bind ip p ≡ none)
      → start ≤ p
      → bind ip p ≡ none
  none_from ip start p here later from = elim (Bool-cases (start == p)) [
    | inl same ↦ ap (bind ip) (sym (==→≡ start p same)) ∙ here
    | inr other ↦ later (ground arith)
  ]

  bind_from-FirstFree :
      (ip left start : ℕ)
      → ((socket : Socket) × (port : ℕ) × (bind_from bind ip left start ≡ ok (socket, port))
          × FirstFree ip start (start + left) port socket
          × (port < start + left))
        ⊎ ((bind_from bind ip left start ≡ err bail)
            × ((p : ℕ) → start ≤ p → p < start + left → bind ip p ≡ none))
  unfolding bind_from
  bind_from-FirstFree ip zero start = inr (refl, λ p lo hi. absurd (omega arith))
  bind_from-FirstFree ip (suc left) start = elim (Option-cases (bind ip start)) [
    | inr (socket, e) ↦ inl (
      socket,
      start,
      rw (e, bind_from),
      (omega arith, omega arith, e, λ p lo hi. absurd (omega arith)),
      omega arith,
    )
    | inl e ↦ elim (bind_from-FirstFree ip left (start + 1)) [
      | inl (socket, port, run, (lo, hi, bound, skipped), inside) ↦ inl (
        socket,
        port,
        rw (e, bind_from) run,
        (
          omega arith,
          omega arith,
          bound,
          λ p from below. none_from ip start p e (λ later. skipped p later below) from,
        ),
        omega arith,
      )
      | inr (run, busy) ↦ inr (
        rw (e, bind_from) run,
        λ p from below. none_from ip start p e (λ later. busy p later (omega arith)) from,
      )
    ]
  ]

  -- The loop over a range that is not empty binds the first port of it that can be bound, or fails
  -- when none can.
  pub bind_to_available_port_sync-FirstFree :
      (ip start end : ℕ)
      → start ≤ end
      → ((socket : Socket) × (port : ℕ) × (bind_to_available_port_sync bind ip (start, end)
            ≡ ok (socket, port))
          × FirstFree ip start end port socket)
        ⊎ ((bind_to_available_port_sync bind ip (start, end) ≡ err bail) × NoneFree ip start end)
  unfolding bind_to_available_port_sync
  bind_to_available_port_sync-FirstFree ip start end h =
      elim (bind_from-FirstFree ip (end + 1 - start) start) [
        | inl (socket, port, run, (lo, hi, bound, skipped), inside) ↦
            inl (socket, port, run, (lo, omega arith, bound, skipped))
        | inr (run, busy) ↦ inr (run, λ p from to. busy p from (omega arith))
      ]
