-- ===== src/Tests/PtyRuns.antt =====
-- The recommendation of local echo.
use rumsh.Prelude.{
  ℕ, ◌==◌, ◌≡◌, refl, true, false, List, [], ◌∷◌, Option, some, Text, text, map, if◌then◌else◌,
}
use rumsh.Protocol.Fragments.Bits.{has_bit}
use rumsh.Server.Pty.{Os, new_cache, trim, ask_all}
use rumsh.Server.Pty.Cache.{recommended, ask_all-new}

-- Group 10 is a shell, the others are editors.
abbrev names : ℕ → Option Text
names pgrp = if pgrp == 10 then some (text "bash\n") else some (text "vim\n")

abbrev silent : ℕ → Os
silent pgrp = record { has_fd = true; lflag = some 0; pgrp = some pgrp; comm = names }

abbrev echoing : Os
echoing = record { has_fd = true; lflag = some 8; pgrp = some 20; comm = names }

abbrev queries : List Os
queries = silent 10 ∷ silent 10 ∷ echoing ∷ silent 20 ∷ []

queries_answered : ask_all queries new_cache ≡ true ∷ true ∷ true ∷ false ∷ []
unfolding ask_all trim has_bit
queries_answered = refl

-- A group that becomes an editor after it was asked about as a shell is still taken for a shell.
abbrev turned : Os
turned = record { has_fd = true; lflag = some 0; pgrp = some 10; comm = λ pgrp. some (text "vim") }

turned_answered : ask_all (silent 10 ∷ turned ∷ []) new_cache ≡ true ∷ true ∷ []
unfolding ask_all trim has_bit
turned_answered = refl

ask_all-new_example : ask_all queries new_cache ≡ map recommended queries
ask_all-new_example =
    ask_all-new names queries
      ((λ pgrp. refl), ((λ pgrp. refl), ((λ pgrp. refl), ((λ pgrp. refl), tt))))
