-- ===== src/Wire/RawEdit/Panics.antt =====
-- A To length that is negative takes the slice of the To segment out of range.
use pod_os_go_client.Prelude.{
  ℕ, ◌+◌, ◌-◌, ◌^◌, ◌≤◌, ◌<◌, ◌≡◌, some, arith, le→leb, Bytes, length, slice,
}
use pod_os_go_client.Prelude.Int.{pos, negsuc, ◌+ℤ◌, +ℤ-pos, -ℤ-pos}
use pod_os_go_client.Prelude.Result.{panic}
use pod_os_go_client.Wire.RawEdit.Commutes.{+ℤ-difference, eight_places, leb_ℤ-pos}
use pod_os_go_client.Wire.SizeParam.{decode_message_size_param}
use pod_os_go_client.Wire.RawEdit.{EditError, rebuild, replace_from_in_raw_message, slice_of}

pub pos+ℤ-negsuc : (a t : ℕ) → t < a → pos a +ℤ negsuc t ≡ pos (a - 1 - t)
unfolding ◌+ℤ◌
pos+ℤ-negsuc a t h = ground arith

-- A segment that ends before it begins.
pub slice_of-panic :
    (E : Type 0) (lo hi : ℕ) (raw : Bytes)
    → hi < lo
    → slice_of {E = E} (pos lo) (pos hi) raw ≡ panic
unfolding slice_of
slice_of-panic E lo hi raw h = ground arith

rebuild-panic :
    (raw new : Bytes) (t f p : ℕ)
    → length raw + length new < 16 ^ 8
    → 27 ≤ t
    → t ≤ 62
    → 63 + f + p ≤ length raw
    → rebuild raw new (negsuc t) (pos f) (pos p) ≡ panic
unfolding rebuild
rebuild-panic raw new t f p small low high fits = rw (pos+ℤ-negsuc 63 t (omega arith)) (
    rw (+ℤ-pos (63 - 1 - t) f) (
      rw (-ℤ-pos (length raw) (63 - 1 - t + f) (omega arith)) (
        rw (-ℤ-pos (length raw - (63 - 1 - t + f)) p (omega arith)) (
          rw (+ℤ-difference (length raw) (length new) f (omega arith)) (
            rw (leb_ℤ-pos (63 - 1 - t + f) (length raw) (omega arith)) (
              rw (leb_ℤ-pos 0 (length raw - (63 - 1 - t + f) - p) (omega arith)) (
                rw (leb_ℤ-pos 0 (length raw + length new - f) (omega arith)) (
                  rw (eight_places (length raw + length new - f) (omega arith)) (
                    rw (eight_places (length new) (omega arith)) (
                      rw (eight_places (length raw - (63 - 1 - t + f) - p) (omega arith))
                        (rw (slice_of-panic EditError 36 (63 - 1 - t) raw (omega arith)))))))))))))

-- Where the To length of a message is negative, from -63 to -28, and every guard passes, the function
-- panics. (The From length and the payload length are not negative and fit the message, and the new
-- message is shorter than 16^8 bytes.)
pub replace_from-panic :
    (raw new : Bytes) (t f p : ℕ)
    → length raw + length new < 16 ^ 8
    → decode_message_size_param (slice 9 18 raw) ≡ some (negsuc t)
    → decode_message_size_param (slice 18 27 raw) ≡ some (pos f)
    → decode_message_size_param (slice 54 63 raw) ≡ some (pos p)
    → 27 ≤ t
    → t ≤ 62
    → 63 + f + p ≤ length raw
    → replace_from_in_raw_message raw new ≡ panic
unfolding replace_from_in_raw_message
replace_from-panic raw new t f p small et ef ep low high fits =
    rw (le→leb 63 (length raw) (omega arith))
      (rw et (rw ef (rw ep (rebuild-panic raw new t f p small low high fits))))
