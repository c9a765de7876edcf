-- ===== src/Chain/Verifier/Signatures.antt =====
-- The signature check of `evaluate`: it returns, and finds no failure exactly where
-- `verifyRecord` accepts the record.
use npc_of_the_internet.Shared.{
  ℕ, ◌+◌, ◌≡◌, refl, ap, ◌&&◌, inl, inr, Option, none, some, List, [], ◌∷◌, Bool, true, false, Text,
  All, length, get, ◌==◌, nat_eq, text_eq, arith, ==_self, Bool-cases, ltb,
}
use npc_of_the_internet.Base64Url.{Bytes, ok, decode_signature}
use npc_of_the_internet.Chain.Record.{OspRecord, Crypto}
use npc_of_the_internet.Chain.Residency.{parse_residency}
use npc_of_the_internet.Chain.Schema.{issues, shaped, safe_parse, needs_cosigners}
use npc_of_the_internet.Chain.Schema.Cosigned.{signatures_decode, needs_cosigners-cosigned}
use npc_of_the_internet.Chain.Signed.{
  RecordError, Thrown, returned, threw, DoorKeys, check_cosigners, verify_cosigners, verify_record,
  encoding_error, cid_mismatch, ◌>>=◌, guard, or_throw, decoded,
}
use npc_of_the_internet.Chain.Verifier.{Signatures, requires_cosigner, caught, check_signatures}

-- The errors that `mapVerifyRecordError` gives a chain rule.
abbrev pub IsMapped : RecordError → Type 0
IsMapped (encoding_error e) = ⊥
IsMapped (cid_mismatch e c) = ⊥
IsMapped _ = Unit

-- Returns, or throws an error that has a chain rule.
abbrev pub IsTame : {A : Type 0} → Thrown A → Type 0
IsTame (returned a) = Unit
IsTame (threw e) = IsMapped e

IsTame-bind :
    {A B : Type 0} (m : Thrown A) (f : A → Thrown B)
    → IsTame m
    → ((a : A) → m ≡ returned a → IsTame (f a))
    → IsTame (m >>= f)
IsTame-bind (returned a) f h k = k a refl
IsTame-bind (threw e) f h k = h

IsTame-guard : (b : Bool) (e : RecordError) → IsMapped e → IsTame (guard b e)
IsTame-guard true e h = tt
IsTame-guard false e h = h

IsTame-or_throw : {A : Type 0} (o : Option A) (e : RecordError) → IsMapped e → IsTame (or_throw o e)
IsTame-or_throw none e h = h
IsTame-or_throw (some a) e h = tt

abbrev Yields : {A : Type 0} → Thrown A → A → Type 0
Yields (returned a) b = a ≡ b
Yields (threw e) b = Unit

Yields-bind :
    {A B : Type 0} (m : Thrown A) (f : A → Thrown B) (b : B)
    → ((a : A) → Yields (f a) b)
    → Yields (m >>= f) b
Yields-bind (returned a) f b k = k a
Yields-bind (threw e) f b k = tt

pub safe_parse-shaped : (r : OspRecord) → issues r ≡ [] → safe_parse (shaped r) ≡ some r
unfolding safe_parse
safe_parse-shaped r h = rw h

module _ (crypto : Crypto) where
  check_cosigners-IsTame :
      (core key : Bytes) (n : ℕ) (cs : List Text)
      → All (λ c. (sig : Bytes) × (decode_signature c ≡ ok sig)) cs
      → IsTame (check_cosigners crypto core key n cs)
  unfolding check_cosigners
  check_cosigners-IsTame core key n [] h = tt
  check_cosigners-IsTame core key n (c ∷ cs) ((sig, e), h) =
      ground (arith, check_cosigners-IsTame core key (n + 1) cs h)

  verify_cosigners-IsTame :
      (r : OspRecord) (keys : Option DoorKeys)
      → issues r ≡ []
      → IsTame (verify_cosigners crypto r keys)
  unfolding verify_cosigners
  verify_cosigners-IsTame r keys h = elim (Bool-cases (ltb 0 (length r.cosigners))) [
    | inl signed ↦ rw signed (
        IsTame-bind _ _ (IsTame-or_throw keys _ tt) λ known _.
          IsTame-bind _ _ (IsTame-guard (ltb 0 (length known)) _ tt) λ _ _.
            IsTame-bind _ _ (IsTame-or_throw r.residency _ tt) λ residency _.
              IsTame-bind _ _ (IsTame-or_throw (parse_residency residency) _ tt) λ parts _.
                IsTame-bind _ _ (IsTame-or_throw (get parts.door_id known) _ tt)
                  λ key _. check_cosigners-IsTame _ key 0 r.cosigners (signatures_decode r h).1)
    | inr unsigned ↦ rw unsigned tt
  ]

  verify_record-IsTame :
      (r : OspRecord) (key : Bytes) (keys : Option DoorKeys)
      → issues r ≡ []
      → IsTame (verify_record crypto r key keys (some (crypto.compute_cid r)))
  unfolding verify_record
  verify_record-IsTame r key keys h =
      let (sig, e) = (signatures_decode r h).0 in
      rw (safe_parse-shaped r h) (
        IsTame-bind _ _ (verify_cosigners-IsTame r keys h) λ _ _. rw e (
          IsTame-bind _ _ (IsTame-guard (crypto.verify _ sig key) _ tt)
            λ _ _. rw (==_self (crypto.compute_cid r)) tt))

  -- Whatever it returns is the record and its CID.
  verify_record-Yields :
      (r : OspRecord) (key : Bytes) (keys : Option DoorKeys)
      → issues r ≡ []
      → Yields
          (verify_record crypto r key keys (some (crypto.compute_cid r)))
          (r, crypto.compute_cid r)
  unfolding verify_record
  verify_record-Yields r key keys h = rw (safe_parse-shaped r h) (
      Yields-bind (verify_cosigners crypto r keys) _ _ λ _.
        Yields-bind (decoded (decode_signature r.sig)) _ _ λ sig.
          Yields-bind (guard (crypto.verify _ sig key) _) _ _
            λ _. Yields-bind (guard (crypto.compute_cid r == crypto.compute_cid r) _) _ _ λ _. refl)

module _ (crypto : Crypto) (keys : Option DoorKeys) (r : OspRecord) (h : issues r ≡ []) where
  abbrev outcome : Bytes → Thrown (OspRecord × Text)
  outcome key = verify_record crypto r key keys (some (crypto.compute_cid r))

  caught_total :
      (m : Thrown (OspRecord × Text))
      → IsTame m
      → (sig : Signatures) × (caught r (crypto.compute_cid r) m ≡ returned sig)
  unfolding caught
  caught_total (returned x) t = (_, refl)
  caught_total (threw (encoding_error e)) t = absurd t
  caught_total (threw (cid_mismatch e c)) t = absurd t
  caught_total (threw _) t = (_, refl)

  caught_sound :
      (m : Thrown (OspRecord × Text)) (e : Option RecordError)
      → Yields m (r, crypto.compute_cid r)
      → caught r (crypto.compute_cid r) m ≡ returned ([], e)
      → m ≡ returned (r, crypto.compute_cid r)
  unfolding caught
  caught_sound (returned x) e y c = ap returned y
  caught_sound (threw e') e y c = ground arith

  requires_cosigner-needs : requires_cosigner r.body ≡ needs_cosigners r.body
  unfolding requires_cosigner needs_cosigners
  requires_cosigner-needs = ground arith

  -- The branch for a missing cosigner is dead: the schema has refused such a record.
  pub never_unsigned : (requires_cosigner r.body && length r.cosigners == 0) ≡ false
  never_unsigned = ground (arith, requires_cosigner-needs, needs_cosigners-cosigned r h)

  -- The check returns, whatever the key.
  pub check_signatures_total :
      (key : Option Bytes)
      → (sig : Signatures) × (check_signatures crypto keys r (crypto.compute_cid r) key
          ≡ returned sig)
  unfolding check_signatures
  check_signatures_total none = rw never_unsigned (([], none), refl)
  check_signatures_total (some key) =
      rw never_unsigned (caught_total (outcome key) (verify_record-IsTame crypto r key keys h))

  pub check_signatures_sound :
      (key : Bytes) (e : Option RecordError)
      → check_signatures crypto keys r (crypto.compute_cid r) (some key) ≡ returned ([], e)
      → outcome key ≡ returned (r, crypto.compute_cid r)
  unfolding check_signatures
  check_signatures_sound key e c =
      caught_sound (outcome key) e (verify_record-Yields crypto r key keys h)
        (rw never_unsigned at c)

  pub check_signatures_complete :
      (key : Bytes)
      → outcome key ≡ returned (r, crypto.compute_cid r)
      → check_signatures crypto keys r (crypto.compute_cid r) (some key) ≡ returned ([], none)
  unfolding check_signatures caught
  check_signatures_complete key o = rw never_unsigned (rw (o, caught))
