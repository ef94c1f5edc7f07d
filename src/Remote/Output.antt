-- ===== src/Remote/Output.antt =====
-- internal/remote/util.go: boundedOutput, and the guard of the recursive deletion.
use host_ftp.Base.{
  ℕ, ◌-◌, ◌≤◌, ◌<◌, ◌≡◌, Bytes, Bool, true, false, List, [], ◌∷◌, ◌++◌, append_assoc, append-nil,
  arith, ltb, ◌==◌, if◌then◌else◌, length, take, length-append, length-take, take_all, take-append,
  ap, ap₂, sym, subst, ◌∙◌, min,
}

pub record BoundedOutput : Type 0 where
  pub buf : Bytes
  pub limit : ℕ
  pub overflow : Bool

unfoldable pub new_bounded_output : ℕ → BoundedOutput
new_bounded_output limit = record { buf = []; limit = limit; overflow = false }

-- Write. It reports all of `p` as written. (A negative limit is 0 here.)
unfoldable pub write : Bytes → BoundedOutput → BoundedOutput
write p b =
    if b.limit == 0
    then record b { overflow = ltb 0 (length p) }
    else let remaining = b.limit - length b.buf in
      record b {
        buf = b.buf ++ take remaining p;
        overflow = if ltb remaining (length p) then true else b.overflow;
      }

unfoldable pub write_all : List Bytes → BoundedOutput → BoundedOutput
unfolding write
write_all [] b = b
write_all (p ∷ ps) b = write_all ps (write p b)

abbrev concat : List Bytes → Bytes
concat [] = []
concat (p ∷ ps) = p ++ concat ps

-- The buffer holds the first `limit` bytes of what was written, and `overflow` tells whether there
-- were more.
pub record Holds (all : Bytes) (b : BoundedOutput) : Type 0 where
  pub prefix : b.buf ≡ take b.limit all
  pub complete : b.overflow ≡ false → length all ≤ b.limit
  pub cut : b.overflow ≡ true → b.limit < length all

write-limit : (p : Bytes) (b : BoundedOutput) → (write p b).limit ≡ b.limit
unfolding write
write-limit p b = ground arith

write-Holds :
    (all p : Bytes) (b : BoundedOutput) → 0 < b.limit → Holds all b → Holds (all ++ p) (write p b)
unfolding write
write-Holds all p b pos v =
    let l : length b.buf ≡ min b.limit (length all) =
      ap length v.prefix ∙ length-take b.limit all in
    let e : b.limit - length all ≡ b.limit - length b.buf = omega (arith, l) in
    let t : take b.limit (all ++ p) ≡ b.buf ++ take (b.limit - length b.buf) p =
      take-append b.limit all p ∙ ap₂ (λ xs n. xs ++ take n p) (sym v.prefix) e in
    ground (arith, t, l, length-append all p)

write_all-Holds :
    (all : Bytes) (ps : List Bytes) (b : BoundedOutput)
    → 0 < b.limit
    → Holds all b
    → Holds (all ++ concat ps) (write_all ps b)
unfolding write_all
write_all-Holds all [] b pos v = rw append-nil v
write_all-Holds all (p ∷ ps) b pos v =
    subst (λ xs. Holds xs (write_all ps (write p b))) (append_assoc all p (concat ps))
      (write_all-Holds (all ++ p) ps (write p b) (omega (arith, write-limit p b))
        (write-Holds all p b pos v))

-- With a positive limit, whatever the child process writes, and in whatever portions, the buffer is the first `limit`
-- bytes of it, and the overflow is reported exactly if there were more.
pub write_all_lem :
    (ps : List Bytes) (limit : ℕ)
    → 0 < limit
    → Holds (concat ps) (write_all ps (new_bounded_output limit))
unfolding new_bounded_output
write_all_lem ps limit pos = write_all-Holds [] ps (new_bounded_output limit) pos (record {
  prefix = sym (take_all limit [] (omega arith));
  complete = λ _. omega arith;
  cut = λ e. absurd (cc);
})
