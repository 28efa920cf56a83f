-- ===== src/Settings/Address.antt =====
-- The text of an address, and the address of a text.
use netslugplus.Base.{
  ℕ, ◌+◌, ◌*◌, ◌/◌, ◌%◌, ◌^◌, ◌<◌, ◌≡◌, ◌∙◌, refl, sym, ap, suc, arith, true, List, [], ◌∷◌, ◌++◌,
  some, append_nil,
}
use netslugplus.Settings.Commit.{octet_step, read_octet, read_octets, parse_ip, at_end}
use netslugplus.Settings.Save.{decimal, print_ip}

read_octet-decimal :
    (d v : ℕ) (rest : List ℕ)
    → d < 256
    → v % 256 ≡ 0
    → at_end rest ≡ true
    → read_octet 3 v (decimal 3 d ++ rest) ≡ some (v + d, rest)
unfolding read_octet octet_step decimal
read_octet-decimal d v rest h z e = ground arith

read_octets-inner :
    (n d v : ℕ) (rest : List ℕ)
    → d < 256
    → v % 256 ≡ 0
    → read_octets (suc (suc n)) v (decimal 3 d ++ (b'.' ∷ rest))
      ≡ read_octets (suc n) ((v + d) * 256 % 2 ^ 32) rest
unfolding read_octets
read_octets-inner n d v rest h z = ground (arith, read_octet-decimal d v (b'.' ∷ rest) h z refl)

read_octets-last : (d v : ℕ) → d < 256 → v % 256 ≡ 0 → read_octets 1 v (decimal 3 d) ≡ some (v + d)
unfolding read_octets
read_octets-last d v h z =
    rw (sym (append_nil (decimal 3 d))) (rw (read_octet-decimal d v [] h z refl, read_octets) refl)

-- An address of 32 bits comes back from the text that is written for it.
pub parse_ip-print_ip : (v : ℕ) → v < 2 ^ 32 → parse_ip (print_ip v) ≡ some v
unfolding parse_ip print_ip
parse_ip-print_ip v h =
    let a = v / 2 ^ 24 % 256 in
    let b = v / 2 ^ 16 % 256 in
    let c = v / 2 ^ 8 % 256 in
    let w1 = (0 + a) * 256 % 2 ^ 32 in
    let w2 = (w1 + b) * 256 % 2 ^ 32 in
    let w3 = (w2 + c) * 256 % 2 ^ 32 in
    read_octets-inner 2 a 0 _ (omega arith) refl
    ∙ (read_octets-inner 1 b w1 _ (omega arith) (omega arith)
        ∙ (read_octets-inner 0 c w2 _ (omega arith) (omega arith)
            ∙ (read_octets-last (v % 256) w3 (omega arith) (omega arith) ∙ ap some (omega arith))))
