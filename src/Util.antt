-- ===== src/Util.antt =====
-- Checks of texts and free ports (lib/util.py).
pub mod Ports
use Prim.Native.Char.{code}
use Prim.Native.String.{◌++◌ as text_append}
use lvpn.Prelude.{
  ℕ, zero, suc, ◌-◌, ◌%◌, String, Bool, true, false, not, ◌&&◌, ◌||◌, ◌==◌, leb, if◌then◌else◌,
}

-- `len(text)`
pub text_length : String → ℕ
text_length String.[] = 0
text_length (String.◌∷◌ c s) = suc (text_length s)

pub is_hex_digit : ℕ → Bool
is_hex_digit c = (leb 48 c && leb c 57) || (leb 65 c && leb c 70) || (leb 97 c && leb c 102)

all_hex : String → Bool
unfolding is_hex_digit
all_hex String.[] = true
all_hex (String.◌∷◌ c s) = is_hex_digit (code c) && all_hex s

-- `codecs.decode(text, "hex")` takes pairs of digits.
unfoldable pub check_paymentid : Bool → String → Bool
unfolding text_length all_hex
check_paymentid check_length paymentid =
    if check_length && not (text_length paymentid == 16)
    then false
    else all_hex paymentid && text_length paymentid % 2 == 0

-- `wallet.startswith("iz")`
starts_iz : String → Bool
starts_iz (String.◌∷◌ c (String.◌∷◌ d s)) = code c == 105 && code d == 122
starts_iz _ = false

unfoldable pub check_wallet_address : String → Bool
unfolding text_length starts_iz
check_wallet_address wallet = if not (text_length wallet == 97) then false else starts_iz wallet

-- `text[:n]` and `text[n:]`
pub take_text : ℕ → String → String
take_text zero s = String.[]
take_text (suc n) String.[] = String.[]
take_text (suc n) (String.◌∷◌ c s) = String.◌∷◌ c (take_text n s)

pub drop_text : ℕ → String → String
drop_text zero s = s
drop_text (suc n) String.[] = String.[]
drop_text (suc n) (String.◌∷◌ c s) = drop_text n s

-- `wallet[-10:]` is the whole of a shorter text.
unfoldable pub shorten_wallet_address : String → String
unfolding take_text drop_text text_length
shorten_wallet_address wallet =
    text_append (take_text 5 wallet)
      (text_append "..." (drop_text (text_length wallet - 10) wallet))
