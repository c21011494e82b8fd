-- ===== src/StateIndexer/Keys.antt =====
-- logic-state-indexer/src/lib.rs: different keys have different texts.
use mathlib.Core.List.{append_assoc}
use read_rpc.Prelude.{
  ◌≡◌, ◌≢◌, refl, ap, sym, ◌∙◌, [], ◌∷◌, ◌++◌, All, Text, Bytes, length, length-append, arith,
  first,
}
use read_rpc.Blocks.Requests.{Hex}

abbrev Plain : Text → Type 0
Plain = All (λ c. c ≢ b'_')

Plain-apart : (xs ys : Text) → Plain (xs ++ b'_' ∷ ys) → ⊥
Plain-apart [] ys plain = plain.0 refl
Plain-apart (x ∷ xs) ys plain = Plain-apart xs ys plain.1

abbrev tail : Text → Text
tail [] = []
tail (x ∷ xs) = xs

-- The last `_` splits a text in one way.
split-last :
    (xs ys hs ks : Text)
    → Plain hs
    → Plain ks
    → xs ++ b'_' ∷ hs ≡ ys ++ b'_' ∷ ks
    → (xs ≡ ys) × (hs ≡ ks)
split-last [] [] hs ks ph pk same = (refl, ap tail same)
split-last [] (y ∷ ys) hs ks ph pk same = absurd (Plain-apart ys ks (rw (ap tail same) at ph))
split-last (x ∷ xs) [] hs ks ph pk same = absurd (Plain-apart xs hs (rw (sym (ap tail same)) at pk))
split-last (x ∷ xs) (y ∷ ys) hs ks ph pk same =
    let rest = split-last xs ys hs ks ph pk (ap tail same) in
    (ground (arith, rest.0, ap first same), rest.1)

pub append-cancel : (xs ys zs : Text) → xs ++ zs ≡ ys ++ zs → xs ≡ ys
append-cancel [] [] zs same = refl
append-cancel [] (y ∷ ys) zs same = absurd (omega (arith, ap length same, length-append ys zs))
append-cancel (x ∷ xs) [] zs same = absurd (omega (arith, ap length same, length-append xs zs))
append-cancel (x ∷ xs) (y ∷ ys) zs same =
    ground (arith, append-cancel xs ys zs (ap tail same), ap first same)

module _ (hex : Hex) where
  encode-Plain : (bs : Bytes) → Plain (hex.encode bs)
  encode-Plain [] = rw hex.encode-nil tt
  encode-Plain (b ∷ bs) =
      rw (hex.encode-cons b bs) (hex.high_plain b, (hex.low_plain b, encode-Plain bs))

  encode-injective : (cs bs : Bytes) → hex.encode cs ≡ hex.encode bs → cs ≡ bs
  encode-injective [] [] same = refl
  encode-injective [] (b ∷ bs) same =
      absurd (ground (arith, same, hex.encode-nil, hex.encode-cons b bs))
  encode-injective (c ∷ cs) [] same =
      absurd (ground (arith, same, hex.encode-nil, hex.encode-cons c cs))
  encode-injective (c ∷ cs) (b ∷ bs) same =
      let heads : hex.high c ∷ hex.low c ∷ hex.encode cs ≡ hex.high b ∷ hex.low b ∷ hex.encode bs =
        sym (hex.encode-cons c cs) ∙ same ∙ hex.encode-cons b bs in
      ground (
        arith,
        hex.digits_injective c b,
        encode-injective cs bs,
        ap first heads,
        ap (λ t. first (tail t)) heads,
        ap (λ t. tail (tail t)) heads,
      )

  -- The account and the key can be told from their text with a kind between, of whatever account.
  pub suffixed-injective :
      (kind id id' : Text) (key key' : Bytes)
      → id ++ (kind ++ b'_' ∷ []) ++ hex.encode key ≡ id' ++ (kind ++ b'_' ∷ []) ++ hex.encode key'
      → (id ≡ id') × (key ≡ key')
  suffixed-injective kind id id' key key' same =
      let parts =
        split-last (id ++ kind) (id' ++ kind) (hex.encode key) (hex.encode key') (encode-Plain key)
          (encode-Plain key') (regroup id key ∙ same ∙ sym (regroup id' key')) in
      (append-cancel id id' kind parts.0, encode-injective key key' parts.1)
    where
      regroup :
          (id : Text) (key : Bytes)
          → (id ++ kind) ++ b'_' ∷ hex.encode key ≡ id ++ (kind ++ b'_' ∷ []) ++ hex.encode key
      regroup id key =
          sym (append_assoc (id ++ kind) (b'_' ∷ []) (hex.encode key))
          ∙ ap (λ (t : Text). t ++ hex.encode key) (append_assoc id kind (b'_' ∷ []))
