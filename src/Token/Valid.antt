-- ===== src/Token/Valid.antt =====
-- Which tokens can be instantiated, and that the share token of a pair is one of them.
use prismswap_contracts.Base.{
  ℕ, zero, suc, ◌+◌, ◌≤◌, ◌<◌, ◌≡◌, refl, sym, ◌∙◌, ap, arith, true, false, not, ◌&&◌, ltb, leb,
  Option, List, [], ◌∷◌, ◌++◌, ok, Bytes, ascii, length, length-append, ensure, >>=-elim,
  map_err-elim, ensure-true, ok-injective,
}
use prismswap_contracts.Asset.{StdError, AssetInfo, cw20, native}
use prismswap_contracts.Messages.{Cw20Coin, MinterResponse}
use prismswap_contracts.Chain.{Chain}
use prismswap_contracts.Querier.{query_token_symbol}
use prismswap_contracts.Pair.Contract.{
  take_chars, token_symbol_max_length, short_symbol, format_lp_token_name,
}
use prismswap_contracts.Token.{
  is_valid_name, is_valid_symbol, all_symbol_bytes, is_symbol_byte, validate,
}

-- Every byte is ASCII.
abbrev pub IsAscii : Bytes → Type 0
IsAscii [] = Unit
IsAscii (b ∷ bs) = (b < 128) × IsAscii bs

-- The symbol of the asset, as far as it is known, is ASCII.
abbrev pub HasAsciiSymbol : Chain → AssetInfo → Type 0
HasAsciiSymbol c (native denom) = IsAscii denom
HasAsciiSymbol c (cw20 token) =
    (symbol : Bytes) → query_token_symbol c token ≡ ok symbol → IsAscii symbol

take_chars-length : (n : ℕ) (bs : Bytes) → IsAscii bs → length (take_chars n bs) ≤ n
unfolding take_chars
take_chars-length n [] a = omega arith
take_chars-length zero (b ∷ bs) (lt, a) =
    let start : (leb 0x80 b && ltb b 0xc0) ≡ false = ground arith in
    rw (length, start) (omega arith)
take_chars-length (suc n) (b ∷ bs) (lt, a) =
    let start : (leb 0x80 b && ltb b 0xc0) ≡ false = ground arith in
    rw (length, start) (omega (arith, take_chars-length n bs a))

short_symbol-length :
    (c : Chain) (info : AssetInfo) {symbol : Bytes}
    → HasAsciiSymbol c info
    → short_symbol c info ≡ ok symbol
    → length symbol ≤ token_symbol_max_length
unfolding short_symbol
short_symbol-length c (native denom) a h =
    rw (sym (ok-injective h)) (take_chars-length token_symbol_max_length denom a)
short_symbol-length c (cw20 token) a h = map_err-elim _ _ _ h λ found e h.
    rw (sym (ok-injective h)) (take_chars-length token_symbol_max_length found (a found e))

append-IsAscii : (a b : Bytes) → IsAscii a → IsAscii b → IsAscii (a ++ b)
append-IsAscii [] b pa pb = pb
append-IsAscii (x ∷ a) b (lt, pa) pb = (lt, append-IsAscii a b pa pb)

take_chars-IsAscii : (n : ℕ) (bs : Bytes) → IsAscii bs → IsAscii (take_chars n bs)
unfolding take_chars
take_chars-IsAscii n [] a = tt
take_chars-IsAscii zero (b ∷ bs) (lt, a) =
    let start : (leb 0x80 b && ltb b 0xc0) ≡ false = ground arith in rw (IsAscii, start) tt
take_chars-IsAscii (suc n) (b ∷ bs) (lt, a) =
    let start : (leb 0x80 b && ltb b 0xc0) ≡ false = ground arith in
    rw (IsAscii, start) (lt, take_chars-IsAscii n bs a)

short_symbol-IsAscii :
    (c : Chain) (info : AssetInfo) {symbol : Bytes}
    → HasAsciiSymbol c info
    → short_symbol c info ≡ ok symbol
    → IsAscii symbol
unfolding short_symbol
short_symbol-IsAscii c (native denom) a h =
    rw (sym (ok-injective h)) (take_chars-IsAscii token_symbol_max_length denom a)
short_symbol-IsAscii c (cw20 token) a h = map_err-elim _ _ _ h λ found e h.
    rw (sym (ok-injective h)) (take_chars-IsAscii token_symbol_max_length found (a found e))

-- The text that is put into upper case.
lp_name-IsAscii :
    (a b : Bytes) → IsAscii a → IsAscii b → IsAscii (a ++ (ascii "-" ++ (b ++ ascii "-LP")))
lp_name-IsAscii a b pa pb =
    append-IsAscii a _ pa
      (omega arith, append-IsAscii b _ pb (omega arith, (omega arith, (omega arith, tt))))

is_valid_name_lem : (n : Bytes) → 3 ≤ length n → length n ≤ 50 → is_valid_name n ≡ true
unfolding is_valid_name
is_valid_name_lem n low high = ground arith

share_symbol_valid : is_valid_symbol (ascii "uLP") ≡ true
unfolding is_valid_symbol all_symbol_bytes is_symbol_byte
share_symbol_valid = refl

six_decimals : (e : StdError) → ensure (not (ltb 18 6)) e ≡ ok tt
unfolding ensure
six_decimals e = refl

-- The name that a pair gives its share token passes the validation of the token contract, with the
-- symbol and the decimals that the pair asks for. The symbols of both assets are ASCII, and upper
-- case keeps the number of bytes of ASCII text.
pub share_token-validates :
    (c : Chain) (infos : AssetInfo × AssetInfo) (balances : List Cw20Coin)
    (mint : Option MinterResponse) {name : Bytes}
    → ((text : Bytes) → IsAscii text → length (c.to_uppercase text) ≡ length text)
    → HasAsciiSymbol c infos.0
    → HasAsciiSymbol c infos.1
    → format_lp_token_name c infos ≡ ok name
    → validate (record {
      name = name;
      symbol = ascii "uLP";
      decimals = 6;
      initial_balances = balances;
      mint = mint;
    })
      ≡ ok tt
unfolding format_lp_token_name validate
share_token-validates c infos balances mint {name} same first second h = >>=-elim _ _ h λ a ea h.
    >>=-elim _ _ h λ b eb h.
      let text = a ++ (ascii "-" ++ (b ++ ascii "-LP")) in
      let size : length name ≡ length a + (1 + (length b + 3)) = omega (
        arith,
        ap length (sym (ok-injective h)),
        same text (
            lp_name-IsAscii a b (short_symbol-IsAscii c infos.0 first ea)
              (short_symbol-IsAscii c infos.1 second eb)),
        length-append a (ascii "-" ++ (b ++ ascii "-LP")),
        length-append b (ascii "-LP"),
      ) in
      let la = short_symbol-length c infos.0 first ea in
      let lb = short_symbol-length c infos.1 second eb in
      ensure-true _ _ (is_valid_name_lem name (omega (arith, size)) (omega (arith, size, la, lb)))
      ∙ ensure-true _ _ share_symbol_valid
      ∙ six_decimals _
