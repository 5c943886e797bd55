-- ===== src/Shell/Expand/Safety.antt =====
-- The growing buffer of src/expand.c: no write is out of bounds, and the text stays terminated.
use shellforge.Prelude.{
  ℕ, suc, ◌+◌, ◌-◌, ◌*◌, ◌≡◌, refl, sym, ap, subst, ◌≢◌, ◌⊎◌, inl, inr, Bool, true, false, Option,
  none, some, List, [], ◌∷◌, ◌++◌, map, append-nil, append_assoc, arith, leb, ltb, Bool-cases,
  set-append, length, length-append, length-map, replicate, length-replicate, Bytes, All, lt→ltb,
}
use mathlib.Core.List.{map-append}
use shellforge.Shell.Result.{Result, ok, failed, ◌>>=◌}
use shellforge.Shell.Expand.{Buffer, store, grown, reserve, append_char, append_text, text_of}

-- The buffer holds a text and its terminator, and knows its own size.
pub record Holds (text : Bytes) (b : Buffer) : Type 0 where
  pub rest : List (Option ℕ)
  pub cells_are : b.cells ≡ map some text ++ (some 0 ∷ rest)
  pub length_is : b.length ≡ length text
  pub capacity_is : b.capacity ≡ length b.cells

-- A call ends with a buffer that holds the text, or it has met a failed allocation.
abbrev pub Ends : (ℕ → Bool) → Bytes → Result Buffer → Type 0
Ends grow text r =
    ((b : Buffer) × (r ≡ ok b) × Holds text b) ⊎ ((r ≡ failed) × ((n : ℕ) × (grow n ≡ false)))

-- Room for one byte more.
record HasRoom (text : Bytes) (b : Buffer) : Type 0 where
  pub next : Option ℕ
  pub later : List (Option ℕ)
  pub cells_are : b.cells ≡ map some text ++ (some 0 ∷ next ∷ later)
  pub length_is : b.length ≡ length text
  pub capacity_is : b.capacity ≡ length b.cells

length-cells :
    (text : Bytes) (r : List (Option ℕ)) → length (map some text ++ r) ≡ length text + length r
length-cells text r = omega (arith, length-append (map some text) r, length-map {A = ℕ} some text)

full-HasRoom :
    (text : Bytes) (b : Buffer)
    → b.cells ≡ map some text ++ (some 0 ∷ [])
    → b.length ≡ length text
    → b.capacity ≡ length b.cells
    → HasRoom text (grown b (b.capacity * 2))
full-HasRoom text b c l k = record {
  next = none;
  later = replicate (length text) none;
  cells_are =
      let n : b.capacity * 2 - length b.cells ≡ suc (length text) =
        omega (arith, ap length c, length-cells text (some 0 ∷ [])) in
      rw (n, c) (append_assoc (map some text) (some 0 ∷ []) (none ∷ replicate (length text) none));
  length_is = l;
  capacity_is = omega (
    arith,
    length-append b.cells (replicate (b.capacity * 2 - length b.cells) none),
    length-replicate {A = Option ℕ} (b.capacity * 2 - length b.cells) none,
  );
}

reserve-HasRoom :
    (grow : ℕ → Bool) (text : Bytes) (b : Buffer)
    → Holds text b
    → ((b' : Buffer) × (reserve grow b ≡ ok b') × HasRoom text b')
      ⊎ ((reserve grow b ≡ failed) × ((n : ℕ) × (grow n ≡ false)))
unfolding reserve
reserve-HasRoom grow text b h = go h.rest h.cells_are
  where
    go :
        (r : List (Option ℕ))
        → b.cells ≡ map some text ++ (some 0 ∷ r)
        → ((b' : Buffer) × (reserve grow b ≡ ok b') × HasRoom text b')
          ⊎ ((reserve grow b ≡ failed) × ((n : ℕ) × (grow n ≡ false)))
    go [] e =
        let full : leb b.capacity (b.length + 1) ≡ true =
          ground
            (arith, h.capacity_is, h.length_is, ap length e, length-cells text (some 0 ∷ [])) in
        elim (Bool-cases (grow (b.capacity * 2))) [
          | inl t ↦ inl (
            grown b (b.capacity * 2),
            rw (full, t),
            full-HasRoom text b e h.length_is h.capacity_is,
          )
          | inr f ↦ inr (rw (full, f), (b.capacity * 2, f))
        ]
    go (x ∷ r) e =
        let open_ : leb b.capacity (b.length + 1) ≡ false =
          ground
            (arith, h.capacity_is, h.length_is, ap length e, length-cells text (some 0 ∷ x ∷ r)) in
        inl (
          b,
          rw open_,
          record {
            next = x;
            later = r;
            cells_are = e;
            length_is = h.length_is;
            capacity_is = h.capacity_is;
          },
        )

store_at :
    (b : Buffer) (i c : ℕ) (before : List (Option ℕ)) (x : Option ℕ) (after : List (Option ℕ))
    → b.cells ≡ before ++ (x ∷ after)
    → i ≡ length before
    → store b i c ≡ ok (record b { cells = before ++ (some c ∷ after) })
unfolding store
store_at b i c before x after e n =
    let inside : ltb i (length b.cells) ≡ true =
      lt→ltb _ _ (omega (arith, ap length e, length-append before (x ∷ after))) in
    rw (inside, e, n, set-append before x after (some c))

-- The buffer behind the two writes of `append_char`.
abbrev appended : Buffer → Bytes → ℕ → List (Option ℕ) → Buffer
appended b text c later = record {
  cells = (map some text ++ some c ∷ []) ++ (some 0 ∷ later);
  length = b.length + 1;
  capacity = b.capacity;
}

stores_two :
    (text : Bytes) (b : Buffer) (c : ℕ) (r : HasRoom text b)
    → (store b b.length c >>= λ b₂. store (record b₂ { length = b₂.length + 1 }) (b₂.length + 1) 0)
      ≡ ok (appended b text c r.later)
stores_two text b c r =
    rw
      (store_at b b.length c (map some text) (some 0) (r.next ∷ r.later) r.cells_are
        (omega (arith, r.length_is, length-map {A = ℕ} some text)))
      (store_at
        (record b { cells = map some text ++ (some c ∷ r.next ∷ r.later); length = b.length + 1 })
        (b.length + 1) 0 (map some text ++ some c ∷ []) r.next r.later
        (sym (append_assoc (map some text) (some c ∷ []) (r.next ∷ r.later)))
        (omega (arith, r.length_is, length-cells text (some c ∷ []))))

appended-Holds :
    (text : Bytes) (b : Buffer) (c : ℕ) (r : HasRoom text b)
    → Holds (text ++ c ∷ []) (appended b text c r.later)
appended-Holds text b c r = record {
  rest = r.later;
  cells_are =
      ap (λ x. x ++ (some 0 ∷ r.later))
        (sym (map-append {A = ℕ} {B = Option ℕ} some text (c ∷ [])));
  length_is = omega (arith, r.length_is, length-append text (c ∷ []));
  capacity_is = omega (
    arith,
    r.capacity_is,
    ap length r.cells_are,
    length-cells text (some 0 ∷ r.next ∷ r.later),
    length-append (map some text ++ some c ∷ []) (some 0 ∷ r.later),
    length-cells text (some c ∷ []),
  );
}

pub append_char-Ends :
    (grow : ℕ → Bool) (text : Bytes) (b : Buffer) (c : ℕ)
    → Holds text b
    → Ends grow (text ++ c ∷ []) (append_char grow b c)
unfolding append_char
append_char-Ends grow text b c h = elim (reserve-HasRoom grow text b h) [
  | inl (b', e, r) ↦ inl (
    appended b' text c r.later,
    rw (e, append_char) (stores_two text b' c r),
    appended-Holds text b' c r,
  )
  | inr (e, f) ↦ inr (rw (e, append_char), f)
]

pub append_text-Ends :
    (grow : ℕ → Bool) (more text : Bytes) (b : Buffer)
    → Holds text b
    → Ends grow (text ++ more) (append_text grow b more)
unfolding append_text
append_text-Ends grow [] text b h = inl (b, refl, subst (λ t. Holds t b) (sym (append-nil text)) h)
append_text-Ends grow (c ∷ more) text b h = elim (append_char-Ends grow text b c h) [
  | inl (b', e, h') ↦
      rw (e, append_text)
        (subst (λ t. Ends grow t (append_text grow b' more)) (append_assoc text (c ∷ []) more)
          (append_text-Ends grow more (text ++ c ∷ []) b' h'))
  | inr (e, f) ↦ inr (rw (e, append_text), f)
]

text_of-append :
    (t : Bytes) (r : List (Option ℕ))
    → All (λ c. c ≢ 0) t
    → text_of (map some t ++ (some 0 ∷ r)) ≡ t
unfolding text_of
text_of-append [] r z = refl
text_of-append (c ∷ t) r z = ground (arith, z.0, text_of-append t r z.1)

-- Read back, the buffer is its text.
pub text_of-Holds :
    (text : Bytes) (b : Buffer) → All (λ c. c ≢ 0) text → Holds text b → text_of b.cells ≡ text
text_of-Holds text b z h = rw h.cells_are (text_of-append text h.rest z)
