-- ===== src/Interfaces/Ids.antt =====
-- interfaces.c, `new_interface_id`: the id is the lowest free one.
use greybus_zephyr.Base.{
  ℕ, zero, suc, ◌+◌, ◌-◌, ◌≤◌, ◌<◌, ◌≡◌, ◌∙◌, sym, ap, refl, length-drop, false, Option, none, some,
  List, [], ◌∷◌, arith, get_elem?, drop, ℤ, pos, neg, eoverflow, length, negsuc,
}
use greybus_zephyr.Interfaces.{Registry, intf_start_id, first_free, new_interface_id}

get_elem?-drop {ℓ} :
    {A : Type ℓ} (n : ℕ) (xs : List A) (i : ℕ) → get_elem? (drop n xs) i ≡ get_elem? xs (n + i)
get_elem?-drop zero xs i = ap (get_elem? xs) (omega arith)
get_elem?-drop (suc n) [] i = refl
get_elem?-drop (suc n) (x ∷ xs) i =
    get_elem?-drop n xs i ∙ ap (get_elem? (x ∷ xs)) {x = suc (n + i)} (omega arith)

-- The slot holds a pointer.
abbrev pub IsTaken : List (Option ℕ) → ℕ → Type 0
IsTaken slots j = (p : ℕ) × (get_elem? slots j ≡ some (some p))

IsTaken-cons :
    (p : ℕ) (slots : List (Option ℕ)) (n : ℕ)
    → ((j : ℕ) → j < n → IsTaken slots j)
    → (j : ℕ) → j < suc n
    → IsTaken (some p ∷ slots) j
IsTaken-cons p slots n taken zero h = (p, refl)
IsTaken-cons p slots n taken (suc j) h = taken j (omega arith)

-- What the scan says of the slots that it was given.
abbrev Scanned : ℕ → List (Option ℕ) → ℤ → Type 0
Scanned i slots (pos id) =
    (d : ℕ) × (id ≡ i + d) × (get_elem? slots d ≡ some none) × ((j : ℕ) → j < d → IsTaken slots j)
Scanned i slots (negsuc n) =
    (negsuc n ≡ neg eoverflow) × ((j : ℕ) → j < length slots → IsTaken slots j)

Scanned-cons :
    (i p : ℕ) (slots : List (Option ℕ)) (r : ℤ)
    → Scanned (i + 1) slots r
    → Scanned i (some p ∷ slots) r
Scanned-cons i p slots (pos id) (d, at, free, taken) =
    (suc d, omega arith, free, IsTaken-cons p slots d taken)
Scanned-cons i p slots (negsuc n) (e, taken) = (e, IsTaken-cons p slots (length slots) taken)

first_free-Scanned : (i : ℕ) (slots : List (Option ℕ)) → Scanned i slots (first_free i slots)
unfolding first_free
first_free-Scanned i [] = (refl, λ j h. elim h [ ])
first_free-Scanned i (none ∷ slots) = (0, omega arith, refl, λ j h. elim h [ ])
first_free-Scanned i (some p ∷ slots) =
    Scanned-cons i p slots (first_free (i + 1) slots) (first_free-Scanned (i + 1) slots)

-- A slot from the first dynamic id on, by its position in the table.
IsTaken-drop :
    (slots : List (Option ℕ)) (d : ℕ)
    → ((j : ℕ) → j < d → IsTaken (drop intf_start_id slots) j)
    → (k : ℕ) → intf_start_id ≤ k
    → k < intf_start_id + d
    → IsTaken slots k
IsTaken-drop slots d taken k lo hi =
    let (p, found) = taken (k - 2) (omega arith) in
    let at : intf_start_id + (k - 2) ≡ k = omega arith in
    (p, ap (get_elem? slots) (sym at) ∙ sym (get_elem?-drop 2 slots (k - 2)) ∙ found)

-- What `new_interface_id` says of the whole table.
abbrev pub LowestFree : List (Option ℕ) → ℤ → Type 0
LowestFree slots (pos id) =
    (intf_start_id ≤ id)
    × (get_elem? slots id ≡ some none)
    × ((k : ℕ) → intf_start_id ≤ k → k < id → IsTaken slots k)
LowestFree slots (negsuc n) =
    (negsuc n ≡ neg eoverflow) × ((k : ℕ) → intf_start_id ≤ k → k < length slots → IsTaken slots k)

Scanned-LowestFree :
    (slots : List (Option ℕ)) (r : ℤ)
    → Scanned intf_start_id (drop intf_start_id slots) r
    → LowestFree slots r
Scanned-LowestFree slots (pos id) (d, at, free, taken) = (
  omega arith,
  rw at (sym (get_elem?-drop 2 slots d) ∙ free),
  λ k lo hi. IsTaken-drop slots d taken k lo (omega arith),
)
Scanned-LowestFree slots (negsuc n) (e, taken) = (
  e,
  λ k lo hi.
      IsTaken-drop slots (length (drop 2 slots)) taken k lo (omega (arith, length-drop 2 slots)),
)

-- With the mutex free, new_interface_id returns the lowest id from 2 on whose slot is free, or an
-- overflow error exactly when all these slots are taken.
pub new_interface_id-LowestFree : (r : Registry) → LowestFree r.intfs (new_interface_id false r)
unfolding new_interface_id
new_interface_id-LowestFree r =
    Scanned-LowestFree r.intfs (first_free intf_start_id (drop intf_start_id r.intfs))
      (first_free-Scanned intf_start_id (drop intf_start_id r.intfs))
