-- ===== src/Server/Pty/Cache.antt =====
-- The cache of `PtyBridge` of src/server/pty.rs against an uncached `is_echo_recommended`.
use rumsh.Prelude.{
  ℕ, Bool, true, List, [], ◌∷◌, Option, none, some, if◌then◌else◌, Text, ◌≡◌, refl, sym, ◌∙◌, ap,
  ap₂, Bool-cases, inl, inr, map, ==→≡,
}
use rumsh.Server.Pty.{
  ProcessCache, new_cache, Os, trimmed, is_echo_enabled, is_last, name_of_group,
  get_foreground_process_name, names_shell, is_echo_recommended, ask_all,
}

-- The name of the foreground process, read afresh.
abbrev pub group_name : (ℕ → Option Text) → Option ℕ → Option Text
group_name comm none = none
group_name comm (some pgrp) = trimmed (comm pgrp)

abbrev pub foreground_name : Os → Option Text
foreground_name os = if os.has_fd then group_name os.comm os.pgrp else none

-- Without a cache.
unfoldable pub recommended : Os → Bool
unfolding is_echo_enabled
recommended os = if is_echo_enabled os then true else names_shell (foreground_name os)

-- Each process group has one name at all the queries.
abbrev pub Named : (ℕ → Option Text) → List Os → Type 0
Named names [] = Unit {0}
Named names (os ∷ rest) = ((pgrp : ℕ) → os.comm pgrp ≡ names pgrp) × Named names rest

abbrev pub Remembers : (ℕ → Option Text) → Option ℕ → Option Text → Type 0
Remembers names none name = Unit {0}
Remembers names (some pgrp) name = name ≡ trimmed (names pgrp)

-- The cache has the right name of its group.
abbrev pub IsCoherent : (ℕ → Option Text) → ProcessCache → Type 0
IsCoherent names cache = Remembers names cache.last_pgrp cache.last_name

-- The name is right, and the cache stays so.
pub record Asked (names : ℕ → Option Text) (name : Option Text) (r : ProcessCache × Option Text)
    : Type 0 where
  pub answer : r.1 ≡ name
  pub coherent : IsCoherent names r.0

hit :
    (names : ℕ → Option Text) (last : Option ℕ) (name : Option Text) (pgrp : ℕ)
    → Remembers names last name
    → is_last last pgrp ≡ true
    → name ≡ trimmed (names pgrp)
hit names none name pgrp coherent same = cc same
hit names (some last) name pgrp coherent same =
    coherent ∙ ap (λ p. trimmed (names p)) (==→≡ last pgrp same)

name_of_group-Asked :
    (names : ℕ → Option Text) (os : Os) (cache : ProcessCache) (pgrp : Option ℕ)
    → ((p : ℕ) → os.comm p ≡ names p)
    → IsCoherent names cache
    → Asked names (group_name os.comm pgrp) (name_of_group os cache pgrp)
name_of_group-Asked names os cache none named coherent = record {
  answer = refl;
  coherent = coherent;
}
name_of_group-Asked names os cache (some pgrp) named coherent =
    elim (Bool-cases (is_last cache.last_pgrp pgrp)) [
      | inl same ↦ rw same (record {
        answer =
            hit names cache.last_pgrp cache.last_name pgrp coherent same
            ∙ ap trimmed (sym (named pgrp));
        coherent = coherent;
      })
      | inr other ↦ rw other (record { answer = refl; coherent = ap trimmed (named pgrp) })
    ]

process_name-Asked :
    (names : ℕ → Option Text) (os : Os) (cache : ProcessCache)
    → ((p : ℕ) → os.comm p ≡ names p)
    → IsCoherent names cache
    → Asked names (foreground_name os) (get_foreground_process_name os cache)
unfolding get_foreground_process_name
process_name-Asked names os cache named coherent = elim (Bool-cases os.has_fd) [
  | inl open_fd ↦ rw open_fd (name_of_group-Asked names os cache os.pgrp named coherent)
  | inr no_fd ↦ rw no_fd (record { answer = refl; coherent = coherent })
]

-- One answer, and the cache behind it.
recommended-step :
    (names : ℕ → Option Text) (os : Os) (cache : ProcessCache)
    → ((p : ℕ) → os.comm p ≡ names p)
    → IsCoherent names cache
    → ((is_echo_recommended os cache).1 ≡ recommended os)
      × IsCoherent names (is_echo_recommended os cache).0
unfolding is_echo_recommended recommended
recommended-step names os cache named coherent =
    let asked = process_name-Asked names os cache named coherent in
    elim (Bool-cases (is_echo_enabled os)) [
      | inl echoes ↦ rw echoes (refl, coherent)
      | inr silent ↦ rw silent (ap names_shell asked.answer, asked.coherent)
    ]

ask_all-recommended :
    (names : ℕ → Option Text) (oss : List Os) (cache : ProcessCache)
    → Named names oss
    → IsCoherent names cache
    → ask_all oss cache ≡ map recommended oss
unfolding ask_all
ask_all-recommended names [] cache named coherent = refl
ask_all-recommended names (os ∷ rest) cache (here, later) coherent =
    let step = recommended-step names os cache here coherent in
    ap₂ (λ a b. a ∷ b) step.0
      (ask_all-recommended names rest (is_echo_recommended os cache).0 later step.1)

-- If each process group keeps its name, then every answer of a bridge, from its start on, is the one
-- of an uncached query, whatever terminals, groups and echo flags the queries meet.
pub ask_all-new :
    (names : ℕ → Option Text) (oss : List Os)
    → Named names oss
    → ask_all oss new_cache ≡ map recommended oss
ask_all-new names oss named = ask_all-recommended names oss new_cache named tt
