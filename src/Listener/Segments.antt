-- ===== src/Listener/Segments.antt =====
-- actix-async/src/util/async_channel/listener.rs: doubly linked segments of entries in memory.
use actix_async.Prelude.{
  ◌>>=◌, ℕ, ◌≡◌, refl, ◌≢◌, Option, some, List, [], ◌∷◌, ◌++◌, arith, ◌⊎◌, inl, inr, ◌↔◌, sym, ◌∙◌,
  ℕ_discrete,
}
use actix_async.Listener.{State, Entry, Cells, update, set_next, set_prev}

-- Entries in their order: each its address and its state.
abbrev pub Items : Type 0
Items = List (ℕ × State)

-- the first address, or what follows
abbrev pub first : Items → Option ℕ → Option ℕ
first [] n = n
first ((a, s) ∷ xs) n = some a

-- the last address, or what stands before
abbrev pub last : Option ℕ → Items → Option ℕ
last p [] = p
last p ((a, s) ∷ xs) = last (some a) xs

abbrev pub NotIn : ℕ → Items → Type 0
NotIn a [] = Unit
NotIn a ((b, s) ∷ xs) = (a ≢ b) × NotIn a xs

abbrev pub Distinct : Items → Type 0
Distinct [] = Unit
Distinct ((a, s) ∷ xs) = NotIn a xs × Distinct xs

-- The entries lie in memory, linked both ways, between `p` and `n`.
abbrev pub Segment : Cells → Option ℕ → Items → Option ℕ → Type 0
Segment c p [] n = Unit
Segment c p ((a, s) ∷ xs) n =
    (c a ≡ some (record { state = s; prev = p; next = first xs n })) × Segment c (some a) xs n

pub Segment-update :
    (c : Cells) (a : ℕ) (e : Option Entry) (p : Option ℕ) (xs : Items) (n : Option ℕ)
    → NotIn a xs
    → Segment c p xs n
    → Segment (update c a e) p xs n
Segment-update c a e p [] n h g = tt
Segment-update c a e p ((b, s) ∷ xs) n h g =
    (ground arith, Segment-update c a e (some b) xs n h.1 g.1)

-- Two memories that agree on the entries hold the same segment.
pub Segment-agree :
    (c d : Cells) (p : Option ℕ) (xs : Items) (n : Option ℕ)
    → ((a : ℕ) → NotIn a xs ⊎ (d a ≡ c a))
    → Segment c p xs n
    → Segment d p xs n
Segment-agree c d p [] n h g = tt
Segment-agree c d p ((a, s) ∷ xs) n h g = (
  elim (h a) [ inl away ↦ absurd (away.0 refl) | inr e ↦ rw e g.0 ],
  Segment-agree c d (some a) xs n (λ b. elim (h b) [ inl away ↦ inl away.1 | inr e ↦ inr e ]) g.1,
)

pub first-append : (xs ys : Items) (n : Option ℕ) → first (xs ++ ys) n ≡ first xs (first ys n)
first-append [] ys n = refl
first-append (x ∷ xs) ys n = refl

pub last-append : (p : Option ℕ) (xs ys : Items) → last p (xs ++ ys) ≡ last (last p xs) ys
last-append p [] ys = refl
last-append p ((a, s) ∷ xs) ys = last-append (some a) xs ys

pub Segment-append :
    (c : Cells) (p : Option ℕ) (xs ys : Items) (n : Option ℕ)
    → Segment c p xs (first ys n)
    → Segment c (last p xs) ys n
    → Segment c p (xs ++ ys) n
Segment-append c p [] ys n g h = h
Segment-append c p ((a, s) ∷ xs) ys n g h =
    (rw (first-append xs ys n) g.0, Segment-append c (some a) xs ys n g.1 h)

pub Segment-split :
    (c : Cells) (p : Option ℕ) (xs ys : Items) (n : Option ℕ)
    → Segment c p (xs ++ ys) n
    → Segment c p xs (first ys n) × Segment c (last p xs) ys n
Segment-split c p [] ys n g = (tt, g)
Segment-split c p ((a, s) ∷ xs) ys n g =
    let (l, r) = Segment-split c (some a) xs ys n g.1 in ((rw (← first-append xs ys n) g.0, l), r)

-- What a write of one link does to a segment.
pub record Relinked (c d : Cells) (p : Option ℕ) (xs : Items) (n : Option ℕ) : Type 0 where
  pub segment : Segment d p xs n
  pub frame : (b : ℕ) → NotIn b xs → d b ≡ c b

abbrev pub last_address : ℕ → Items → ℕ
last_address a [] = a
last_address a ((b, s) ∷ xs) = last_address b xs

pub last-some : (a : ℕ) (xs : Items) → last (some a) xs ≡ some (last_address a xs)
last-some a [] = refl
last-some a ((b, s) ∷ xs) = last-some b xs

-- The last entry of a segment is linked to what follows instead.
pub set_next-Segment :
    (c : Cells) (p : Option ℕ) (a : ℕ) (s : State) (xs : Items) (n v : Option ℕ)
    → Distinct ((a, s) ∷ xs)
    → Segment c p ((a, s) ∷ xs) n
    → (d : Cells) × (set_next (last_address a xs) v c ≡ some d) × Relinked c d p ((a, s) ∷ xs) v
unfolding set_next
set_next-Segment c p a s [] n v h g = (
  update c a (some (record { state = s; prev = p; next = v })),
  rw (g.0, ◌>>=◌),
  record { segment = (ground arith, tt); frame = λ b away. ground arith },
)
set_next-Segment c p a s ((b, r) ∷ xs) n v h g =
    let (d, e, k) = set_next-Segment c (some a) b r xs n v h.1 g.1 in
    (
      d,
      e,
      record { segment = (k.frame a h.0 ∙ g.0, k.segment); frame = λ x away. k.frame x away.1 },
    )

-- The first entry of a segment is linked to what stands before instead.
pub set_prev-Segment :
    (c : Cells) (p v : Option ℕ) (a : ℕ) (s : State) (xs : Items) (n : Option ℕ)
    → Distinct ((a, s) ∷ xs)
    → Segment c p ((a, s) ∷ xs) n
    → (d : Cells) × (set_prev a v c ≡ some d) × Relinked c d v ((a, s) ∷ xs) n
unfolding set_prev
set_prev-Segment c p v a s xs n h g = (
  update c a (some (record { state = s; prev = v; next = first xs n })),
  rw (g.0, ◌>>=◌),
  record {
    segment = (ground arith, Segment-update c a _ (some a) xs n h.0 g.1);
    frame = λ b away. ground arith;
  },
)

-- Entries of a list with distinct addresses.
pub NotIn-append : (a : ℕ) (xs ys : Items) → NotIn a (xs ++ ys) ↔ (NotIn a xs × NotIn a ys)
NotIn-append a [] ys = (λ h. (tt, h), λ h. h.1)
NotIn-append a ((b, s) ∷ xs) ys =
    let (f, g) = NotIn-append a xs ys in
    (λ h. ((h.0, (f h.1).0), (f h.1).1), λ h. (h.0.0, g (h.0.1, h.1)))

-- Distinct addresses, seen from an entry inside the list.
pub record Parted (xs : Items) (a : ℕ) (ys : Items) : Type 0 where
  pub before : Distinct xs
  pub after : Distinct ys
  pub not_before : NotIn a xs
  pub not_after : NotIn a ys
  pub rest : Distinct (xs ++ ys)
  pub apart : (b : ℕ) → NotIn b xs ⊎ NotIn b ys

Distinct-apart : (xs ys : Items) → Distinct (xs ++ ys) → (b : ℕ) → NotIn b xs ⊎ NotIn b ys
Distinct-apart [] ys h b = inl tt
Distinct-apart ((a, s) ∷ xs) ys h b = elim (ℕ_discrete b a) [
  | yes e ↦ inr (rw e ((NotIn-append a xs ys).0 h.0).1)
  | no ne ↦ elim (Distinct-apart xs ys h.1 b) [ inl away ↦ inl (ne, away) | inr away ↦ inr away ]
]

pub Distinct-Parted :
    (xs : Items) (a : ℕ) (s : State) (ys : Items) → Distinct (xs ++ ((a, s) ∷ ys)) → Parted xs a ys
Distinct-Parted [] a s ys h = record {
  before = tt;
  after = h.1;
  not_before = tt;
  not_after = h.0;
  rest = h.1;
  apart = λ b. inl tt;
}
Distinct-Parted ((x, r) ∷ xs) a s ys h =
    let k = Distinct-Parted xs a s ys h.1 in
    let (l, t) = (NotIn-append x xs ((a, s) ∷ ys)).0 h.0 in
    let rest : Distinct ((x, r) ∷ (xs ++ ys)) = ((NotIn-append x xs ys).1 (l, t.1), k.rest) in
    record {
      before = (l, k.before);
      after = k.after;
      not_before = (λ e. t.0 (sym e), k.not_before);
      not_after = k.not_after;
      rest = rest;
      apart = Distinct-apart ((x, r) ∷ xs) ys rest;
    }

pub Distinct-append_one :
    (xs : Items) (a : ℕ) (s : State) → Distinct xs → NotIn a xs → Distinct (xs ++ ((a, s) ∷ []))
Distinct-append_one [] a s h n = (tt, tt)
Distinct-append_one ((b, r) ∷ xs) a s h n = (
  (NotIn-append b xs ((a, s) ∷ [])).1 (h.0, (λ e. n.0 (sym e), tt)),
  Distinct-append_one xs a s h.1 n.1,
)
