-- ===== src/Kernel/Vm/Mapped.antt =====
-- Which addresses the page tables of NanoBoot/kernel/vm.c map for the user, told from the layout of
-- Sv39 tables: three levels of 9 bits each above the 12 bits within a page, V in bit 0 of an entry, U
-- in bit 4, and the number of a page from bit 10 on.
use shellforge.Prelude.{
  ◌⊎◌, ℕ, zero, suc, ◌+◌, ◌-◌, ◌*◌, ◌/◌, ◌%◌, ◌^◌, ◌<◌, ◌≡◌, refl, sym, ap, subst, ◌∙◌, inl, inr,
  Bool, true, false, ◌&&◌, Bool-cases, Option, none, some, List, [], ◌∷◌, leb, ltb, ltb→lt, lt→ltb,
  ◌≤◌, if◌then◌else◌, get_or, get_elem?, length, arith,
}
use shellforge.Kernel.Vm.{
  page_size, Pool, and_then, pte2pa, is_valid, is_user, entry, valid_entry, vpn_2, vpn_1, vpn_0,
  walk_user_pte, translate_user,
}

-- Entry `i` of the table at `p`: in the page of the pool in which `p` lies, or, outside of the pool,
-- in the rest of memory.
pub data EntryAt (pool : Pool) (p i e : ℕ) : Type 0 where
  in_pool :
      (page offset : ℕ) (table : List ℕ)
      → p ≡ pool.base + page * 2 ^ 12 + offset
      → offset < 2 ^ 12
      → get_elem? pool.pages page ≡ some table
      → get_elem? table i ≡ some e
      → EntryAt pool p i e
  in_memory :
      p < pool.base ⊎ (pool.base + length pool.pages * 2 ^ 12 ≤ p)
      → pool.elsewhere p i ≡ e
      → EntryAt pool p i e

abbrev pub HasBit : ℕ → ℕ → Type 0
HasBit n e = e / 2 ^ n % 2 ≡ 1

-- The address of the page that an entry names, in 64 bits.
abbrev pub page_of : ℕ → ℕ
page_of e = e / 2 ^ 10 * 2 ^ 12 % 2 ^ 64

-- The tables below `pt` map the address `va` to `pa`, for the user.
pub record Maps (pool : Pool) (pt va pa : ℕ) : Type 0 where
  pub low : va < 2 ^ 39
  pub top : ℕ
  pub middle : ℕ
  pub leaf : ℕ
  pub top_at : EntryAt pool pt (va / 2 ^ 30) top
  pub top_valid : HasBit 0 top
  pub middle_at : EntryAt pool (page_of top) (va / 2 ^ 21 % 2 ^ 9) middle
  pub middle_valid : HasBit 0 middle
  pub leaf_at : EntryAt pool (page_of middle) (va / 2 ^ 12 % 2 ^ 9) leaf
  pub leaf_valid : HasBit 0 leaf
  pub user : HasBit 4 leaf
  pub pa_is : pa ≡ page_of leaf + va % 2 ^ 12

module _ {A : Type 0} where
  get_elem?-get_or :
      (xs : List A) (i : ℕ) (d : A) → i < length xs → get_elem? xs i ≡ some (get_or xs i d)
  get_elem?-get_or [] i d h = absurd (omega arith)
  get_elem?-get_or (x ∷ xs) zero d h = refl
  get_elem?-get_or (x ∷ xs) (suc i) d h = get_elem?-get_or xs i d (omega arith)

  get_or-get_elem? :
      (xs : List A) (i : ℕ) (d x : A)
      → get_elem? xs i ≡ some x
      → (get_or xs i d ≡ x) × (i < length xs)
  get_or-get_elem? [] i d x h = absurd cc
  get_or-get_elem? (y ∷ xs) zero d x h = (cc, omega arith)
  get_or-get_elem? (y ∷ xs) (suc i) d x h =
      let (e, lt) = get_or-get_elem? xs i d x h in (e, omega arith)

-- What is read at no place is 0, which is not valid.
get_elem?-odd : (xs : List ℕ) (i e : ℕ) → get_or xs i 0 ≡ e → e % 2 ≡ 1 → get_elem? xs i ≡ some e
get_elem?-odd [] i e h odd = absurd (omega arith)
get_elem?-odd (x ∷ xs) zero e h odd = ap some h
get_elem?-odd (x ∷ xs) (suc i) e h odd = get_elem?-odd xs i e h odd

and_then-some :
    (o : Option ℕ) (f : ℕ → Option ℕ) (b : ℕ)
    → and_then o f ≡ some b
    → (a : ℕ) × (o ≡ some a) × (f a ≡ some b)
and_then-some none f b h = absurd cc
and_then-some (some a) f b h = (a, refl, h)

if_some : (t : Bool) (x y : ℕ) → (if t then some x else none) ≡ some y → (t ≡ true) × (y ≡ x)
if_some true x y h = (refl, cc)
if_some false x y h = absurd cc

unless_some :
    (t : Bool) (o : Option ℕ) (y : ℕ)
    → (if t then none else o) ≡ some y
    → (t ≡ false) × (o ≡ some y)
unless_some true o y h = absurd cc
unless_some false o y h = (refl, h)

module _ (pool : Pool) where
  valid_of : (x e : ℕ) → (if is_valid x then some x else none) ≡ some e → (x ≡ e) × (e % 2 ≡ 1)
  valid_of x e h =
      let (valid, same) = if_some (is_valid x) x e h in (sym same, (rw same (ground arith)))

  abbrev inside : ℕ → Bool
  inside p = leb pool.base p && ltb ((p - pool.base) / page_size) (length pool.pages)

  inside-parts :
      (p : ℕ)
      → inside p ≡ true
      → (leb pool.base p ≡ true) × (ltb ((p - pool.base) / page_size) (length pool.pages) ≡ true)
  inside-parts p h = (ground arith, ground arith)

  beyond : (p : ℕ) → pool.base + length pool.pages * 2 ^ 12 ≤ p → inside p ≡ false
  beyond p h =
      let far : length pool.pages ≤ (p - pool.base) / page_size = omega arith in ground arith

  outside :
      (p : ℕ) → inside p ≡ false → p < pool.base ⊎ (pool.base + length pool.pages * 2 ^ 12 ≤ p)
  outside p h = elim (Bool-cases (leb pool.base p)) [
    | inl t ↦
        let beyond : ltb ((p - pool.base) / page_size) (length pool.pages) ≡ false = ground arith in
        let far : length pool.pages ≤ (p - pool.base) / page_size = ground arith in
        let from : pool.base ≤ p = ground arith in inr (omega arith)
    | inr f ↦ inl (ground arith)
  ]

  valid_entry→EntryAt :
      (p i e : ℕ) → valid_entry pool p i ≡ some e → EntryAt pool p i e × HasBit 0 e
  unfolding entry
  valid_entry→EntryAt p i e h =
      let (found, odd) = valid_of (entry pool p i) e h in
      elim (Bool-cases (inside p)) [
        | inl t ↦
            let (above, below) = inside-parts p t in
            let from : pool.base ≤ p = ground arith in
            let fits : (p - pool.base) / page_size < length pool.pages = ltb→lt _ _ below in
            let table = get_or pool.pages ((p - pool.base) / page_size) [] in
            let read : get_or table i 0 ≡ e = sym (rw t refl) ∙ found in
            (
              in_pool ((p - pool.base) / page_size) ((p - pool.base) % page_size) table
                  (omega arith) (omega arith) (get_elem?-get_or pool.pages _ [] fits)
                  (get_elem?-odd table i e read odd),
              omega arith,
            )
        | inr f ↦ (in_memory (outside p f) (sym (rw f refl) ∙ found), omega arith)
      ]

  EntryAt→valid_entry :
      (p i e : ℕ) → EntryAt pool p i e → HasBit 0 e → valid_entry pool p i ≡ some e
  unfolding entry
  EntryAt→valid_entry p i e (in_pool page offset table placed within table_is entry_is) valid =
      let number : (p - pool.base) / page_size ≡ page = omega arith in
      let (there, fits) = get_or-get_elem? pool.pages page [] table table_is in
      let (read, _) = get_or-get_elem? table i 0 e entry_is in
      let above : leb pool.base p ≡ true = ground arith in
      let below : ltb page (length pool.pages) ≡ true = lt→ltb _ _ fits in
      let odd : is_valid e ≡ true = ground arith in rw (number, above, below, there, read, odd) refl
  EntryAt→valid_entry p i e (in_memory out read) valid =
      let no : inside p ≡ false = elim out [ inl lt ↦ ground arith | inr ge ↦ beyond p ge ] in
      let odd : is_valid e ≡ true = ground arith in rw (no, read, odd) refl

  -- The walk of the code finds exactly the addresses that the tables map for the user.
  pub translate_user→Maps :
      (pt va pa : ℕ) → translate_user pool pt va ≡ some pa → Maps pool pt va pa
  unfolding translate_user walk_user_pte
  translate_user→Maps pt va pa h =
      let (leaf, walk, last) = and_then-some (walk_user_pte pool pt va) _ pa h in
      let (below, steps) = unless_some (leb (2 ^ 39) va) _ leaf walk in
      let (top, first, later) = and_then-some (valid_entry pool pt (vpn_2 va)) _ leaf steps in
      let (middle, second, third) =
        and_then-some (valid_entry pool (pte2pa top) (vpn_1 va)) _ leaf later in
      let (top_at, top_valid) = valid_entry→EntryAt pt (vpn_2 va) top first in
      let (middle_at, middle_valid) = valid_entry→EntryAt (pte2pa top) (vpn_1 va) middle second in
      let (leaf_at, leaf_valid) = valid_entry→EntryAt (pte2pa middle) (vpn_0 va) leaf third in
      let (user, pa_is) = if_some (is_user leaf) (pte2pa leaf + va % page_size) pa last in
      let low : va < 2 ^ 39 = ground arith in
      let index : vpn_2 va ≡ va / 2 ^ 30 = omega arith in
      record {
        low = low;
        top = top;
        middle = middle;
        leaf = leaf;
        top_at = subst (λ i. EntryAt pool pt i top) index top_at;
        top_valid = top_valid;
        middle_at = middle_at;
        middle_valid = middle_valid;
        leaf_at = leaf_at;
        leaf_valid = leaf_valid;
        user = ground arith;
        pa_is = pa_is;
      }

  pub Maps→translate_user :
      (pt va pa : ℕ) → Maps pool pt va pa → translate_user pool pt va ≡ some pa
  unfolding translate_user walk_user_pte
  Maps→translate_user pt va pa m =
      let low : leb (2 ^ 39) va ≡ false = ground (arith, m.low) in
      let top : vpn_2 va ≡ va / 2 ^ 30 = omega (arith, m.low) in
      let first = EntryAt→valid_entry pt (va / 2 ^ 30) m.top m.top_at m.top_valid in
      let second =
        EntryAt→valid_entry (page_of m.top) (va / 2 ^ 21 % 2 ^ 9) m.middle m.middle_at
          m.middle_valid in
      let third =
        EntryAt→valid_entry (page_of m.middle) (va / 2 ^ 12 % 2 ^ 9) m.leaf m.leaf_at
          m.leaf_valid in
      let user : is_user m.leaf ≡ true = ground (arith, m.user) in
      rw (low, top, first) (rw second (rw third (rw user (ap some (sym m.pa_is)))))
