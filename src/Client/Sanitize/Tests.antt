-- ===== src/Client/Sanitize/Tests.antt =====
-- sanitize-error.ts on a few texts.
use x402_worker_template.Prelude.{◌≡◌, refl}
use x402_worker_template.Client.Sanitize.{sanitize_browser_string}

hides_address :
    sanitize_browser_string "to 0x00000000000000000000000000000000000000Aa now"
    ≡ "to [redacted] now"
unfolding sanitize_browser_string
hides_address = refl

-- A word in front of an address is a word of the same run: the address is not seen, and stays when
-- the word is taken out.
keeps_address_behind_a_word :
    sanitize_browser_string "mnemonic0x00000000000000000000000000000000000000Aa"
    ≡ "[redacted]0x00000000000000000000000000000000000000Aa"
unfolding sanitize_browser_string
keeps_address_behind_a_word = refl
