-- ===== src/Cmd/Old/Client/Pasting.antt =====
-- The candidates of the other program, pasted one a line.
use mathlib.Core.List.Perm
use mathlib.Core.List.{Perm}
use yamrp.Prelude.{List, Option, [], false, none, some, ℕ, ◌++◌, ◌∷◌, ◌≡◌}
use yamrp.Cmd.Old.{Bytes}
use yamrp.Cmd.Old.Client.{Event, Externals, Program, adds_one, asks, blocked, says_end}
use yamrp.Cmd.Old.Client.Turns.{all_adds}

abbrev pub end_line : Bytes
end_line = b'e' ∷ b'n' ∷ b'd' ∷ []

abbrev paste : Bytes → Event
paste line = asks line none

abbrev pub pasted : List Bytes → List Event
pasted [] = paste end_line ∷ []
pasted (line ∷ lines) = paste line ∷ pasted lines

abbrev pub at_the_end : Program → List Bytes → Program
at_the_end s adding = record s { place = blocked; adding = adding }

-- The next line is pasted at each `none`; at each `some`, the goroutine at that position among those
-- that are left has its turn. What is left of the lines comes last.
abbrev pub woven : List (Option ℕ) → List Event → List Event
woven [] lines = lines
woven (some i ∷ turns) lines = adds_one i ∷ woven turns lines
woven (none ∷ turns) [] = woven turns []
woven (none ∷ turns) (line ∷ lines) = line ∷ woven turns lines

module _ {D : Type 0} (ext : Externals D)
    (decodes : (c : Bytes) → ext.decode (ext.encode c) ≡ (c, none)) where
  -- The line of a candidate is read as one, and not as the end or as one that is too short.
  abbrev pub IsRead : Bytes → Type 0
  IsRead c = says_end (ext.encode c) ≡ some false

  abbrev pub IsPasted : List Bytes → Program → Program → Type 0
  IsPasted cs s t = (t.place ≡ blocked) × Perm (all_adds t) (s.added ++ (s.adding ++ cs))
