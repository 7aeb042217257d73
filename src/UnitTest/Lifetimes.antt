-- ===== src/UnitTest/Lifetimes.antt =====
-- The objects of `UnitTestClass` that live, and how often each was made and destroyed.
use Prim.Native.Nat.{zero, suc}
use cpp_freshman.Prelude.{
  ℕ, ◌+◌, Option, some, List, [], ◌∷◌, ◌≡◌, refl, arith, ◌==◌, ltb, if◌then◌else◌, ap, get_elem?,
  Bool-cases, inl, inr, ◌∙◌,
}
use cpp_freshman.UnitTest.{
  Trace, construct, copy_construct, move_construct, copy_assigns, move_assigns, destruct, shows,
  UnitTestClass, Objects, find_object, drop_object, set_object, new_object,
}

abbrev pub occurrences : ℕ → List ℕ → ℕ
occurrences i [] = 0
occurrences i (a ∷ ls) = (if a == i then 1 else 0) + occurrences i ls

module _ {A : Type 0} where
  -- How often an object was made, by any constructor, and how often it was destroyed.
  abbrev pub made : ℕ → List (Trace A) → ℕ
  made i [] = 0
  made i (construct a ∷ es) = (if a == i then 1 else 0) + made i es
  made i (copy_construct a ∷ es) = (if a == i then 1 else 0) + made i es
  made i (move_construct a ∷ es) = (if a == i then 1 else 0) + made i es
  made i (copy_assigns a ∷ es) = made i es
  made i (move_assigns a ∷ es) = made i es
  made i (destruct a ∷ es) = made i es
  made i (shows x ∷ es) = made i es

  abbrev pub destroyed : ℕ → List (Trace A) → ℕ
  destroyed i [] = 0
  destroyed i (destruct a ∷ es) = (if a == i then 1 else 0) + destroyed i es
  destroyed i (construct a ∷ es) = destroyed i es
  destroyed i (copy_construct a ∷ es) = destroyed i es
  destroyed i (move_construct a ∷ es) = destroyed i es
  destroyed i (copy_assigns a ∷ es) = destroyed i es
  destroyed i (move_assigns a ∷ es) = destroyed i es
  destroyed i (shows x ∷ es) = destroyed i es

  abbrev pub places : List (UnitTestClass A) → List ℕ
  places [] = []
  places (u ∷ us) = u.place ∷ places us

  pub find_object-places :
      (n a : ℕ) (us : List (UnitTestClass A))
      → get_elem? (places us) n ≡ some a
      → (x : A) × (find_object a us ≡ some x)
  find_object-places n a [] e = ground arith
  find_object-places zero a (u ∷ us) e = (u.data_at, ground arith)
  find_object-places (suc n) a (u ∷ us) e = elim (Bool-cases (u.place == a)) [
    | inl f ↦ (u.data_at, rw f refl)
    | inr f ↦ let (x, g) = find_object-places n a us e in (x, rw f g)
  ]

  pub places-set_object :
      (a : ℕ) (x : A) (us : List (UnitTestClass A)) → places (set_object a x us) ≡ places us
  places-set_object a x [] = refl
  places-set_object a x (u ∷ us) = elim (Bool-cases (u.place == a)) [
    | inl f ↦ rw f refl
    | inr f ↦ rw f (ap (◌∷◌ u.place) (places-set_object a x us))
  ]

  -- Just these objects live, the others that were made were destroyed, and places are used once.
  pub record IsAlive (ls : List ℕ) (s : Objects A) : Type 0 where
    pub places_at : places s.live ≡ ls
    pub made_at : (i : ℕ) → made i s.log ≡ (if ltb i s.next then 1 else 0)
    pub destroyed_at : (i : ℕ) → destroyed i s.log + occurrences i ls ≡ made i s.log

  -- An operation that is defined and leaves just these objects.
  abbrev pub Gives : List ℕ → Option (Objects A) → Type 0
  Gives ls o = (t : Objects A) × (o ≡ some t) × IsAlive ls t

  -- The three constructors print that an object was made, and the others do not.
  abbrev pub Makes : (ℕ → Trace A) → Type 0
  Makes event =
      (i a : ℕ) (es : List (Trace A))
      → (made i (event a ∷ es) ≡ (if a == i then 1 else 0) + made i es)
        × (destroyed i (event a ∷ es) ≡ destroyed i es)

  pub IsAlive-new :
      (event : ℕ → Trace A)
      → Makes event
      → (ls : List ℕ) (s : Objects A) (x : A) → IsAlive ls s
      → IsAlive (s.next ∷ ls) (new_object event x s)
  IsAlive-new event makes ls s x h = record {
    places_at = ap (◌∷◌ s.next) h.places_at;
    made_at = λ i. ground (arith, h.made_at i, makes i s.next s.log);
    destroyed_at = λ i. ground (arith, h.destroyed_at i, makes i s.next s.log);
  }

  -- Other data in the same places.
  pub IsAlive-data :
      (us : List (UnitTestClass A)) (ls : List ℕ) (s : Objects A)
      → places us ≡ places s.live
      → IsAlive ls s
      → IsAlive ls (record s { live = us })
  IsAlive-data us ls s e h = record {
    places_at = e ∙ h.places_at;
    made_at = h.made_at;
    destroyed_at = h.destroyed_at;
  }

  -- A line that tells of no object made or destroyed.
  pub IsAlive-line :
      (e : Trace A) (ls : List ℕ) (s : Objects A)
      → ((i : ℕ)
          → (made i (e ∷ s.log) ≡ made i s.log) × (destroyed i (e ∷ s.log) ≡ destroyed i s.log))
      → IsAlive ls s
      → IsAlive ls (record s { log = e ∷ s.log })
  IsAlive-line e ls s quiet h = record {
    places_at = h.places_at;
    made_at = λ i. (quiet i).0 ∙ h.made_at i;
    destroyed_at = λ i. omega (arith, quiet i, h.destroyed_at i);
  }

  pub drop_newest :
      (a : ℕ) (ls : List ℕ) (us : List (UnitTestClass A))
      → places us ≡ a ∷ ls
      → (x : A) × (find_object a us ≡ some x) × (places (drop_object a us) ≡ ls)
  drop_newest a ls [] e = ground arith
  drop_newest a ls (u ∷ us) e = (u.data_at, ground arith, ground arith)

  pub find_local :
      (n a : ℕ) (ls : List ℕ) (s : Objects A)
      → IsAlive ls s
      → get_elem? ls n ≡ some a
      → (x : A) × (find_object a s.live ≡ some x)
  find_local n a ls s h e = find_object-places n a s.live (rw h.places_at e)
