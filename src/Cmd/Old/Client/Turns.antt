-- ===== src/Cmd/Old/Client/Turns.antt =====
-- The goroutines of cmd/_bak/client/main.go that call AddICECandidate.
use mathlib.Core.List.Perm
use mathlib.Core.List.{Perm}
use mathlib.Core.Option.{some-injective}
use mathlib.Core.List.{append_assoc}
use yamrp.Prelude.{
  List, Option, Option-cases, [], ap, inl, inr, none, refl, some, subst, suc, sym, zero, ℕ, ◌++◌,
  ◌∷◌, ◌≡◌,
}
use yamrp.Cmd.Old.{Bytes, Exit}
use yamrp.Cmd.Old.Client.{
  Externals, Place, Program, added_one, adds_one, alive, asking, blocked, described, go, offered,
  pick, scanning, starting, step,
}

-- The element at a position and the others are what there was.
pick-Perm :
    (i : ℕ) (cs rest : List Bytes) (c : Bytes) → pick i cs ≡ some (c, rest) → Perm cs (c ∷ rest)
unfolding pick
pick-Perm i [] rest c h = cc
pick-Perm zero (d ∷ cs) rest c h =
    let e = some-injective _ _ h in subst (λ x. Perm (d ∷ cs) (x.0 ∷ x.1)) e Perm.rfl
pick-Perm (suc i) (d ∷ cs) rest c h = elim (Option-cases (pick i cs)) [
  | inl none_there ↦ cc (rw none_there at h)
  | inr ((x, others), picked) ↦
      let e = some-injective _ _ (rw picked at h) in
      let found =
        Perm.trans (Perm.cons d (pick-Perm i cs others x picked)) (Perm.swap x d others) in
      subst (λ y. Perm (d ∷ cs) (y.0 ∷ y.1)) e found
]

-- What was handed to AddICECandidate and what the goroutines have still to hand to it
abbrev pub all_adds : Program → List Bytes
all_adds s = s.added ++ s.adding

-- A goroutine's turn leaves main where it is, and all that is handed over in the end.
abbrev pub Turn : Program → Program → Type 0
Turn s t = (t.place ≡ s.place) × (t.peer.over ≡ s.peer.over) × Perm (all_adds t) (all_adds s)

module _ {D : Type 0} (ext : Externals D) where
  taken-Turn :
      (i : ℕ) (s : Program) (o : Option Exit) (r : Option (Bytes × List Bytes)) {t : Program}
      {u : Unit {0}}
      → pick i s.adding ≡ r
      → alive ext o (added_one s r) ≡ some (t, u)
      → Turn s t
  taken-Turn i s (some e) r p h = cc
  taken-Turn i s none none p h = cc
  taken-Turn i s none (some (c, rest)) p h =
      let e = ap (λ x. x.0) (some-injective _ _ h) in
      let picked = Perm.symm (pick-Perm i s.adding rest c p) in
      let kept =
        subst (λ l. Perm l (all_adds s)) (sym (append_assoc s.added (c ∷ []) rest))
          (Perm.append_left s.added picked) in
      subst (Turn s) e (refl, refl, kept)

  pub adds_one-Turn :
      (i : ℕ) (s t : Program) (u : Unit {0}) → step ext (adds_one i) s ≡ some (t, u) → Turn s t
  unfolding step go
  adds_one-Turn i s t u h = taken-Turn i s s.peer.over (pick i s.adding) refl (at s.place h)
    where
      at :
          (l : Place)
          → alive ext s.peer.over (go ext l (adds_one i) s) ≡ some (t, u)
          → alive ext s.peer.over (added_one s (pick i s.adding)) ≡ some (t, u)
      at starting h = h
      at offered h = h
      at asking h = h
      at blocked h = h
      at (scanning passed) h = h
      at (described passed) h = h
