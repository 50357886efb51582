-- ===== src/Net/Socks5/Wire.antt =====
-- The connection that crates/open-sdbl-db/src/net/socks5.rs negotiates over: what the other side
-- sends, whatever it chooses to answer, is a list of bytes; what is handed to the connection is kept
-- write by write.
use open_sdbl.Prelude.{
  ℕ, zero, suc, ◌≤◌, ◌≡◌, refl, ap, subst, List, [], ◌∷◌, ◌++◌, Option, none, some, ltb,
  if◌then◌else◌, if_elim, length, take, drop, length-take, arith,
}
use open_sdbl.Prelude.Result.{Result, ok, err, stuck}
use open_sdbl.Net.Socks5.Request.{IoErrorKind, IoError, io_error}

pub record Wire : Type 0 where
  -- The bytes that can still be read, and what reading past them reports
  pub incoming : List ℕ
  pub ending : IoError
  -- The failure of a write, by the writes before it
  pub write_fault : ℕ → Option IoError
  pub sent : List (List ℕ)

abbrev pub Talk : Type 0 → Type 0
Talk A = Wire → Result IoError A × Wire

abbrev pub pure : {A : Type 0} → A → Talk A
pure a w = (ok a, w)

abbrev pub fail : {A : Type 0} → IoErrorKind → List ℕ → Talk A
fail kind message w = (err (io_error kind message), w)

abbrev pub and_then :
    {A B : Type 0} → Result IoError A × Wire → (A → Talk B) → Result IoError B × Wire
and_then (ok a, w) f = f a w
and_then (err e, w) f = (err e, w)
and_then (stuck, w) f = (stuck, w)

infixl 5 ◌>>=◌
unfoldable pub ◌>>=◌ : {A B : Type 0} → Talk A → (A → Talk B) → Talk B
m >>= f = λ w. and_then (m w) f

abbrev pub written : Option IoError → Wire → Result IoError (Unit {0}) × Wire
written none w = (ok tt, w)
written (some e) w = (err e, w)

-- `write_all`; a write that fails may have sent a part.
unfoldable pub write_all : List ℕ → Talk (Unit {0})
write_all bytes w =
    written (w.write_fault (length w.sent)) (record w { sent = w.sent ++ bytes ∷ [] })

-- `read_exact`
unfoldable pub read_exact : ℕ → Talk (List ℕ)
read_exact n w =
    if ltb (length w.incoming) n
    then (err w.ending, record w { incoming = [] })
    else (ok (take n w.incoming), record w { incoming = drop n w.incoming })

-- What holds of the value and of the connection after a success, and of the connection after a
-- failure.
pub data Leaves {A : Type 0} (R : A → Wire → Type 0) (E : Wire → Type 0)
    : Result IoError A × Wire → Type 0 where
  gave : {a : A} {w : Wire} → R a w → Leaves R E (ok a, w)
  failed : {e : IoError} {w : Wire} → E w → Leaves R E (err e, w)

module _ {A B : Type 0} {R : A → Wire → Type 0} {F : Wire → Type 0} {S : B → Wire → Type 0}
    {E : Wire → Type 0} where
  and_then-Leaves :
      (f : A → Talk B) {r : Result IoError A × Wire}
      → Leaves R F r
      → ((w : Wire) → F w → E w)
      → ((a : A) (w : Wire) → R a w → Leaves S E (f a w))
      → Leaves S E (and_then r f)
  and_then-Leaves f (gave {a} {w} h) k next = next a w h
  and_then-Leaves f (failed {e} {w} h) k next = failed (k w h)

  pub >>=-Leaves :
      (m : Talk A) (f : A → Talk B) (w : Wire)
      → Leaves R F (m w)
      → ((w' : Wire) → F w' → E w')
      → ((a : A) (w' : Wire) → R a w' → Leaves S E (f a w'))
      → Leaves S E ((m >>= f) w)
  unfolding ◌>>=◌
  >>=-Leaves m f w h k next = and_then-Leaves f h k next

written-Leaves :
    (fault : Option IoError) (w : Wire) → Leaves (λ _ w'. w' ≡ w) (λ w'. w' ≡ w) (written fault w)
written-Leaves none w = gave refl
written-Leaves (some e) w = failed refl

pub write_all-Leaves :
    (bytes : List ℕ) (w : Wire)
    → Leaves
        (λ _ w'. w' ≡ record w { sent = w.sent ++ bytes ∷ [] })
        (λ w'. w' ≡ record w { sent = w.sent ++ bytes ∷ [] })
        (write_all bytes w)
unfolding write_all
write_all-Leaves bytes w =
    written-Leaves (w.write_fault (length w.sent)) (record w { sent = w.sent ++ bytes ∷ [] })

take-drop {ℓ} : {A : Type ℓ} (n : ℕ) (xs : List A) → xs ≡ take n xs ++ drop n xs
take-drop zero xs = refl
take-drop (suc n) [] = refl
take-drop (suc n) (x ∷ xs) = ap (λ l. x ∷ l) (take-drop n xs)

pub read_exact-Leaves :
    (n : ℕ) (w : Wire)
    → Leaves
        (λ bytes w'. (w.incoming ≡ bytes ++ w'.incoming) × (length bytes ≡ n) × (w'.sent ≡ w.sent))
        (λ w'. w'.sent ≡ w.sent)
        (read_exact n w)
unfolding read_exact
read_exact-Leaves n w =
    if_elim
      (Leaves
        (λ bytes w'. (w.incoming ≡ bytes ++ w'.incoming) × (length bytes ≡ n) × (w'.sent ≡ w.sent))
        (λ w'. w'.sent ≡ w.sent))
      (ltb (length w.incoming) n) (err w.ending, record w { incoming = [] })
      (ok (take n w.incoming), record w { incoming = drop n w.incoming }) (λ _. failed refl)
      (λ long.
        let enough : n ≤ length w.incoming = ground arith in
        gave (take-drop n w.incoming, omega (arith, length-take n w.incoming), refl))

module _ {A : Type 0} {R : A → Wire → Type 0} {E : Wire → Type 0} where
  -- Where a success leaves what a failure leaves, both do.
  pub Leaves-both :
      {r : Result IoError A × Wire} → Leaves R E r → ((a : A) (w : Wire) → R a w → E w) → E r.1
  Leaves-both (gave {a} {w} h) k = k a w h
  Leaves-both (failed h) k = h

Gave : {A : Type 0} → (A → Wire → Type 0) → Result IoError A × Wire → Type 0
Gave R (ok a, w) = R a w
Gave R (err e, w) = Unit
Gave R (stuck, w) = Unit

module _ {A : Type 0} {R : A → Wire → Type 0} {E : Wire → Type 0} where
  Leaves-Gave : {r : Result IoError A × Wire} → Leaves R E r → Gave R r
  unfolding Gave
  Leaves-Gave (gave h) = h
  Leaves-Gave (failed h) = tt

  pub Leaves-ok :
      {r : Result IoError A × Wire} {a : A} {w : Wire} → Leaves R E r → r ≡ (ok a, w) → R a w
  unfolding Gave
  Leaves-ok h e = subst (Gave R) e (Leaves-Gave h)

  pub Leaves-weaken :
      {S : A → Wire → Type 0} {F : Wire → Type 0} {r : Result IoError A × Wire}
      → Leaves R E r
      → ((a : A) (w : Wire) → R a w → S a w)
      → ((w : Wire) → E w → F w)
      → Leaves S F r
  Leaves-weaken (gave {a} {w} h) k l = gave (k a w h)
  Leaves-weaken (failed {e} {w} h) k l = failed (l w h)
