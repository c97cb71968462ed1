-- ===== src/Dedup/Files/Whole.antt =====
-- xread and xwrite of src/dedup/util.cpp move all that they are asked for.
use npb_sync.Prelude.{
  ℕ, zero, suc, ◌+◌, ◌-◌, ◌/◌, ◌%◌, ◌^◌, ◌≤◌, ◌<◌, ◌≡◌, refl, ap, ◌∙◌, [], ◌++◌, arith, length,
  take, drop, append-nil, append_assoc, dec_lt, length-drop, take-append-drop, take_all, drop_all,
  length-append, take-append, drop-append, take_add, drop_add, length_zero,
}
use npb_sync.Dedup.Chunk.{Bytes}
use npb_sync.Dedup.Files.{
  System, IsRegular, bytes_of, number_of, xread, xread_loop, xwrite, xwrite_loop,
}

pub number-bytes : (w n : ℕ) → n < 256 ^ w → number_of (bytes_of w n) ≡ n
unfolding number_of bytes_of
number-bytes zero n h = omega arith
number-bytes (suc w) n h =
    let p : n / 256 < 256 ^ w = grind arith in let e = number-bytes w (n / 256) p in omega arith

pub length-bytes : (w n : ℕ) → length (bytes_of w n) ≡ w
unfolding bytes_of
length-bytes zero n = refl
length-bytes (suc w) n = ap suc (length-bytes w (n / 256))

module _ (sys : System) (ok : IsRegular sys) where
  xread_loop_lem :
      (fuel len nrecv : ℕ) (got rest : Bytes)
      → nrecv ≤ len
      → len - nrecv < fuel
      → len - nrecv ≤ length rest
      → xread_loop sys fuel len nrecv got rest ≡ record {
        r = len % 2 ^ 32;
        got = got ++ take (len - nrecv) rest;
        rest = drop (len - nrecv) rest;
      }
  unfolding xread_loop
  xread_loop_lem zero len nrecv got rest a b c = absurd (omega arith)
  xread_loop_lem (suc fuel) len nrecv got rest a b c =
      let n = len - nrecv in
      let rv = sys.read n rest in
      elim (dec_lt nrecv len) [
        | yes more ↦
            let asked : rv ≤ n = ok.read_asked n rest in
            let there : rv ≤ length rest = ok.read_there n rest in
            let some : 0 < rv = ok.read_some n rest (omega arith) (omega arith) in
            let left = length-drop rv rest in
            let rest_lem =
              xread_loop_lem fuel len (nrecv + rv) (got ++ take rv rest) (drop rv rest)
                (omega arith) (omega arith) (omega (arith, left)) in
            let split : n ≡ rv + (len - (nrecv + rv)) = omega arith in
            let t = take_add rv (len - (nrecv + rv)) rest in
            let d = drop_add rv (len - (nrecv + rv)) rest in
            let a' = append_assoc got (take rv rest) (take (len - (nrecv + rv)) (drop rv rest)) in
            ground arith
        | no full ↦
            let z : n ≡ 0 = omega arith in
            let e : nrecv ≡ len = omega arith in rw z (rw (append-nil got) (ground arith))
      ]

  xread_loop_end :
      (fuel len nrecv : ℕ) (got rest : Bytes)
      → nrecv + length rest < len
      → len - nrecv < fuel
      → (xread_loop sys fuel len nrecv got rest).r ≡ 0
  unfolding xread_loop
  xread_loop_end zero len nrecv got rest a b = absurd (omega arith)
  xread_loop_end (suc fuel) len nrecv got rest a b =
      let n = len - nrecv in
      let rv = sys.read n rest in
      let there : rv ≤ length rest = ok.read_there n rest in
      let left = length-drop rv rest in
      elim (dec_lt 0 rv) [
        | yes more ↦
            let next =
              xread_loop_end fuel len (nrecv + rv) (got ++ take rv rest) (drop rv rest)
                (omega (arith, left)) (omega arith) in
            ground arith
        | no end ↦ ground arith
      ]

  pub xread_lem :
      (xs ys : Bytes)
      → xread sys (length xs) (xs ++ ys) ≡ record { r = length xs % 2 ^ 32; got = xs; rest = ys }
  unfolding xread
  xread_lem xs ys =
      let l = length-append xs ys in
      let e =
        xread_loop_lem (suc (length xs)) (length xs) 0 [] (xs ++ ys) (omega arith) (omega arith)
          (omega (arith, l)) in
      let z : length xs - 0 ≡ length xs = omega arith in
      let z' : length xs - length xs ≡ 0 = omega arith in
      let t : take (length xs) (xs ++ ys) ≡ xs =
        rw (take-append (length xs) xs ys, z', take_all (length xs) xs (omega arith))
          (append-nil xs) in
      let d : drop (length xs) (xs ++ ys) ≡ ys =
        rw (drop-append (length xs) xs ys, z', drop_all (length xs) xs (omega arith)) refl in
      e ∙ rw (z, t, d) refl

  pub xread_end : (n : ℕ) (xs : Bytes) → length xs < n → (xread sys n xs).r ≡ 0
  unfolding xread
  xread_end n xs h = xread_loop_end (suc n) n 0 [] xs (omega arith) (omega arith)

  xwrite_loop_lem :
      (fuel len nsent : ℕ) (content out : Bytes)
      → nsent + length content ≡ len
      → length content < fuel
      → xwrite_loop sys fuel len nsent content out ≡ (len % 2 ^ 32, out ++ content)
  unfolding xwrite_loop
  xwrite_loop_lem zero len nsent content out a b = absurd (omega arith)
  xwrite_loop_lem (suc fuel) len nsent content out a b =
      let rv = sys.write (len - nsent) in
      elim (dec_lt nsent len) [
        | yes more ↦
            let asked : rv ≤ len - nsent = ok.write_asked (len - nsent) in
            let some : 0 < rv = ok.write_some (len - nsent) (omega arith) in
            let left = length-drop rv content in
            let next =
              xwrite_loop_lem fuel len (nsent + rv) (drop rv content) (out ++ take rv content)
                (omega (arith, left)) (omega (arith, left)) in
            let t = take-append-drop rv content in
            let a' = append_assoc out (take rv content) (drop rv content) in ground arith
        | no full ↦
            let e : nsent ≡ len = omega arith in
            let z : content ≡ [] = length_zero content (omega arith) in
            rw z (rw (append-nil out) (ground arith))
      ]

  pub xwrite_lem : (xs out : Bytes) → xwrite sys xs out ≡ (length xs % 2 ^ 32, out ++ xs)
  unfolding xwrite
  xwrite_lem xs out =
      xwrite_loop_lem (suc (length xs)) (length xs) 0 xs out (omega arith) (omega arith)
