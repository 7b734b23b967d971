-- ===== src/Tests/Instances.antt =====
-- Concrete services: numbers whose text is unary, fixed-point numbers within 128 bits, a cipher
-- that hides nothing, and the ports made of them.
use offchain_service.Base.{
  ℕ, zero, suc, ◌+◌, ◌-◌, ◌*◌, ◌/◌, ◌%◌, ◌^◌, refl, sym, false, List, [], ◌∷◌, ltb, leb, ◌==◌,
  length, if◌then◌else◌, Text, Result, ok, err, arith,
}
use offchain_service.Base.Lists.{replicate, length-replicate}
use offchain_service.Base.Results.{port}
use offchain_service.Base.Numbers.{Numbers, IsPrinting}
use offchain_service.Base.Texts.{IsFree}
use offchain_service.Price.Calculus.{Ethers, IsExact, fixed_limit}
use offchain_service.Ledger.Entry.{Comparison, before, same, after}
use offchain_service.Ledger.Sync.{Encryption, SyncPorts}
use offchain_service.Ledger.Sync.Checksum.{RoundTrips}

abbrev pub unary : ℕ → Text
unary k = replicate k b'1'

abbrev pub numbers : Numbers
numbers = record {
  F = ℕ;
  of_ℕ = λ k. k;
  nan = 0;
  add = λ x y. x + y;
  sub = λ x y. x - y;
  lt = ltb;
  le = leb;
  eq = λ x y. x == y;
  show = unary;
  show_ℕ = unary;
  read = length;
  to_fixed2 = unary;
}

unary-IsFree : (k : ℕ) → IsFree b'|' (unary k)
unary-IsFree zero = tt
unary-IsFree (suc k) = (ground arith, unary-IsFree k)

pub printing : IsPrinting numbers b'|'
printing = record {
  read-show = λ x. length-replicate x b'1';
  read-show_ℕ = λ k. length-replicate k b'1';
  show-IsFree = unary-IsFree;
  show_ℕ-IsFree = unary-IsFree;
  eq-of_ℕ = λ k. ground arith;
  lt-add_one = λ x. ground arith;
  lt-sub_one = λ x. ground arith;
}

-- A value within 128 bits, or the fault of the library.
abbrev within : ℕ → Result ℕ
within k = if ltb k fixed_limit then ok k else err (port 0)

abbrev wrap : ℕ → ℕ
wrap k = k % fixed_limit

abbrev pub ethers : Ethers
ethers = record {
  Fixed = ℕ;
  from_value = within;
  add_unsafe = λ x y. within (wrap x + wrap y);
  sub_unsafe = λ x y. if ltb (wrap x) (wrap y) then err (port 0) else ok (wrap x - wrap y);
  mul_unsafe = λ x y. within (wrap x * wrap y / 10 ^ 18);
  div_unsafe = λ x y. if wrap y == 0 then err (port 0) else within (wrap x * 10 ^ 18 / wrap y);
  is_negative = λ _. false;
  parse_ether = λ x. ok (wrap x);
}

pub exact : IsExact ethers
exact = record {
  units = wrap;
  units_bound = λ x. omega arith;
  from_value_ok = λ k h. (k, ground arith, omega arith);
  from_value_err = λ k h. (port 0, ground arith);
  add_ok = λ x y h. (wrap x + wrap y, ground arith, omega arith);
  add_err = λ x y h. (port 0, ground arith);
  sub_ok = λ x y h. (wrap x - wrap y, ground arith, omega arith);
  sub_err = λ x y h. (port 0, ground arith);
  not_negative = λ x. refl;
  parse_ether_units = λ x. refl;
}

abbrev pub plain : Encryption
plain = record { encrypt = λ content _ _. ok content; decrypt = λ content _ _. ok content }

pub plain-RoundTrips : RoundTrips plain
plain-RoundTrips content iv secret cipher h = sym h

-- An insertion sort.
abbrev insert_by : {A : Type 0} → (A → A → Comparison) → A → List A → List A
insert_by cmp a [] = a ∷ []
insert_by cmp a (b ∷ bs) =
    let rest = insert_by cmp a bs in
    elim (cmp a b) [ before ↦ a ∷ b ∷ bs | same ↦ a ∷ b ∷ bs | after ↦ b ∷ rest ]

abbrev sort_by : {A : Type 0} → (A → A → Comparison) → List A → List A
sort_by cmp [] = []
sort_by cmp (a ∷ rest) = insert_by cmp a (sort_by cmp rest)

abbrev pub sync_ports : SyncPorts numbers
sync_ports = record {
  ethers = ethers;
  encryption = plain;
  cbc_key = b'k' ∷ [];
  clock = λ e. e.entry_date;
  answers = record { balance_answer = λ _ _. ok tt; journal_answer = λ _ _. ok tt };
  sort = sort_by;
}
