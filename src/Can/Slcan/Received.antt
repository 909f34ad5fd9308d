-- ===== src/Can/Slcan/Received.antt =====
-- What holds of every frame that the decoder makes of a line.
use nazh.Base.{
  ℕ, ◌+◌, ◌*◌, ◌<◌, ◌≡◌, refl, ap, min, Bool, true, false, Option, some, List, [], ◌∷◌, ◌⊎◌, inl,
  inr, ltb, ◌==◌, length, All, arith, u32_max, if_elim,
}
use mathlib.Core.Path.{subst}
use mathlib.Core.Option.{some_inj}
use nazh.Base.Options.{>>=_elim}
use nazh.Connections.Types.{DateTime}
use nazh.Can.Hex.{IsByte, HexError, decode}
use nazh.Can.Hex.Accepts.{encode-decode}
use nazh.Can.Numerals.{from_str_radix, trim, slice}
use nazh.Can.Numerals.Laws.{length-slice}
use nazh.Can.Frame.{CanFrame}
use nazh.Can.Slcan.{
  panics, encode_slcan_frame, received, ok, unless, decode_standard, decode_extended,
  decode_standard_remote, decode_extended_remote, decode_trimmed, decode_slcan_frame,
}

-- a frame with the bytes that its length code says, or a remote frame, which has none
abbrev pub IsReceived : CanFrame → Type 0
IsReceived frame =
    ((frame.is_remote ≡ true) × (frame.payload ≡ []))
    ⊎ ((frame.is_remote ≡ false) × (length frame.payload ≡ frame.dlc) × All IsByte frame.payload)

unless_inv : (b : Bool) (u : Unit {0}) → unless b ≡ some u → b ≡ false
unless_inv true u h = absurd (ground arith)
unless_inv false u h = refl

ok_inv : (o : HexError ⊎ List ℕ) (bytes : List ℕ) → ok o ≡ some bytes → o ≡ inr bytes
ok_inv (inl e) bytes h = absurd (ground arith)
ok_inv (inr all) bytes h = let same : all ≡ bytes = cc in ap inr same

data_frame-IsReceived :
    (now : DateTime) (text : List ℕ) (id dlc start : ℕ) (extended : Bool) (bytes : List ℕ)
    → ltb (length text) (start + dlc * 2) ≡ false
    → decode (slice start (dlc * 2) text) ≡ inr bytes
    → IsReceived (received now id bytes dlc extended false)
data_frame-IsReceived now text id dlc start extended bytes enough read =
    let (_, all, size) = encode-decode _ bytes read in
    inr (refl, omega (arith, size, length-slice start (dlc * 2) text enough), all)

standard-IsReceived :
    (now : DateTime) (text : List ℕ) (frame : CanFrame)
    → decode_standard now text ≡ some frame
    → IsReceived frame
unfolding decode_standard
standard-IsReceived now text frame h =
    >>=_elim (unless (ltb (length text) 5)) _ frame h (λ _ long h1.
      >>=_elim (from_str_radix 16 u32_max (slice 1 3 text)) _ frame h1 (λ id _ h2.
        >>=_elim (from_str_radix 10 255 (slice 4 1 text)) _ frame h2 (λ dlc _ h3.
          >>=_elim (unless (ltb (length text) (5 + dlc * 2))) _ frame h3 (λ u enough h4.
            >>=_elim (ok (decode (slice 5 (dlc * 2) text))) _ frame h4 (λ bytes read made.
              subst IsReceived (some_inj.0 made) (
                data_frame-IsReceived now text id dlc 5 false bytes (unless_inv _ u enough)
                  (ok_inv _ bytes read)))))))

extended-IsReceived :
    (now : DateTime) (text : List ℕ) (frame : CanFrame)
    → decode_extended now text ≡ some frame
    → IsReceived frame
unfolding decode_extended
extended-IsReceived now text frame h =
    >>=_elim (unless (ltb (length text) 11)) _ frame h (λ _ long h1.
      >>=_elim (from_str_radix 16 u32_max (slice 1 8 text)) _ frame h1 (λ id _ h2.
        >>=_elim (from_str_radix 10 255 (slice 9 1 text)) _ frame h2 (λ dlc _ h3.
          >>=_elim (unless (ltb (length text) (10 + dlc * 2))) _ frame h3 (λ u enough h4.
            >>=_elim (ok (decode (slice 10 (dlc * 2) text))) _ frame h4 (λ bytes read made.
              subst IsReceived (some_inj.0 made) (
                data_frame-IsReceived now text id dlc 10 true bytes (unless_inv _ u enough)
                  (ok_inv _ bytes read)))))))

standard_remote-IsReceived :
    (now : DateTime) (text : List ℕ) (frame : CanFrame)
    → decode_standard_remote now text ≡ some frame
    → IsReceived frame
unfolding decode_standard_remote
standard_remote-IsReceived now text frame h =
    >>=_elim (unless (ltb (length text) 5)) _ frame h (λ _ _ h1.
      >>=_elim (from_str_radix 16 u32_max (slice 1 3 text)) _ frame h1 (λ id _ h2.
        >>=_elim (from_str_radix 10 255 (slice 4 1 text)) _ frame h2
          (λ dlc _ made. subst IsReceived (some_inj.0 made) (inl (refl, refl)))))

extended_remote-IsReceived :
    (now : DateTime) (text : List ℕ) (frame : CanFrame)
    → decode_extended_remote now text ≡ some frame
    → IsReceived frame
unfolding decode_extended_remote
extended_remote-IsReceived now text frame h =
    >>=_elim (unless (ltb (length text) 10)) _ frame h (λ _ _ h1.
      >>=_elim (from_str_radix 16 u32_max (slice 1 8 text)) _ frame h1 (λ id _ h2.
        >>=_elim (from_str_radix 10 255 (slice 9 1 text)) _ frame h2
          (λ dlc _ made. subst IsReceived (some_inj.0 made) (inl (refl, refl)))))

arms-IsReceived :
    (now : DateTime) (text : List ℕ) (frame : CanFrame)
    → decode_trimmed now text ≡ some frame
    → IsReceived frame
unfolding decode_trimmed
arms-IsReceived now [] frame h = absurd (ground arith)
arms-IsReceived now (head ∷ rest) frame h =
    let text = head ∷ rest in
    let Sound : Option CanFrame → Type 0 = λ o. o ≡ some frame → IsReceived frame in
    (if_elim Sound (head == 116) (λ _. standard-IsReceived now text frame)
        (λ _.
          if_elim Sound (head == 84) (λ _. extended-IsReceived now text frame)
            (λ _.
              if_elim Sound (head == 114) (λ _. standard_remote-IsReceived now text frame)
                (λ _.
                  if_elim Sound (head == 82) (λ _. extended_remote-IsReceived now text frame)
                    (λ _ e. absurd (ground arith))))))
      h

-- Every frame that is decoded from a line either is a remote frame without data, or has as many bytes
-- as its length code says, each below 256.
pub decode_slcan_frame-IsReceived :
    (now : DateTime) (text : List ℕ) (frame : CanFrame)
    → decode_slcan_frame now text ≡ some frame
    → IsReceived frame
unfolding decode_slcan_frame
decode_slcan_frame-IsReceived now text frame h = arms-IsReceived now (trim text) frame h

-- A remote frame that is decoded from a line and asks for data cannot be sent on: to encode it slices
-- its empty data out of range.
pub remote_frame_panics :
    (now : DateTime) (text : List ℕ) (frame : CanFrame)
    → decode_slcan_frame now text ≡ some frame
    → frame.is_remote ≡ true
    → 0 < frame.dlc
    → encode_slcan_frame frame ≡ panics
unfolding encode_slcan_frame
remote_frame_panics now text frame h remote pos =
    let short : ltb (length frame.payload) (min frame.dlc 8) ≡ true =
      elim (decode_slcan_frame-IsReceived now text frame h) [
        | inl (_, empty) ↦ rw empty (ground arith)
        | inr (other, _, _) ↦ absurd (ground (arith, remote, other))
      ] in
    rw (short, encode_slcan_frame) refl
