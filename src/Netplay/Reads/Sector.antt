-- ===== src/Netplay/Reads/Sector.antt =====
-- The numbers that name reads of the disc on both consoles.
use netslugplus.Base.{ℕ, ◌^◌, ◌≤◌, ◌<◌, ◌≡◌, ◌↔◌, refl, arith, Bool, true, false}
use netslugplus.Netplay.Types.{fault}
use netslugplus.Netplay.Reads.{ReadState, sector_of, count_read}

-- Reads that are held back have different sectors, if the files are different or one is read more
-- often than the other: for a file number below 4096 and fewer than 2 ^ 20 reads of a file.
pub sector_of-injective :
    (c d n k : ℕ)
    → n < 4096
    → k < 4096
    → c < 2 ^ 20
    → d < 2 ^ 20
    → sector_of c n ≡ sector_of d k
    → (c ≡ d) × (n ≡ k)
unfolding sector_of
sector_of-injective c d n k hn hk hc hd e = ground arith

-- Whatever a read is, and however often a file was read: it is counted outside the array of counts
-- exactly if it is one to hold back, 39 of those have passed already, and the file's number is
-- 4096: the bound that is put on the number misses this one.
pub count_read-eq-fault :
    (intercept : Bool) (file : ℕ) (r : ReadState)
    → (count_read (intercept, file) r ≡ fault)
      ↔ ((intercept ≡ true) × (39 ≤ r.skip_count) × (file ≡ 4096))
unfolding count_read
count_read-eq-fault false file r = (λ e. absurd (cc e), λ (i, _, _). absurd (cc i))
count_read-eq-fault true file r =
    (λ e. (refl, ground arith, ground arith), λ (_, h, e). ground (arith, h, e))
