-- ===== src/IntQueue/Tests.antt =====
-- A queue with two bytes, around the end of its buffer.
use cs439_project.Prelude.{
  ℕ, true, false, [], ◌∷◌, ◌++◌, ◌≡◌, refl, ok, none, some, ◌%◌, replicate, arith,
}
use cs439_project.IntQueue.{Intq, intq_getc, intq_putc}
use cs439_project.IntQueue.Fifo.{IsValid, contents, intq_putc-appends, intq_getc-takes}

abbrev keys : Intq
keys = record {
  not_full = none;
  not_empty = some 7;
  buf = 8 ∷ replicate 62 0 ++ (9 ∷ []);
  head = 1;
  tail = 63;
}

keys-IsValid : IsValid keys
keys-IsValid = record { sized = refl; head_within = omega arith; tail_within = omega arith }

keys-contents : contents keys ≡ 9 ∷ 8 ∷ []
keys-contents = refl

intq_putc-appends_example :
    (q' : Intq) × (intq_putc true true keys 300 ≡ ok (q', some 7))
    × IsValid q'
    × (contents q' ≡ contents keys ++ (300 % 256 ∷ []))
    × (q'.not_empty ≡ none)
intq_putc-appends_example = intq_putc-appends true keys 300 keys-IsValid refl

intq_getc-takes_example :
    (q' : Intq) × (byte : ℕ) × (intq_getc true false keys ≡ ok (q', byte, none))
    × IsValid q'
    × (contents keys ≡ byte ∷ contents q')
    × (q'.not_full ≡ none)
intq_getc-takes_example = intq_getc-takes false keys keys-IsValid refl
