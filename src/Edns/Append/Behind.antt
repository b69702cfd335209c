-- ===== src/Edns/Append/Behind.antt =====
-- `edns_append_opt` behind a message.
use simple_dns.Common.{
  ℕ, zero, suc, ◌+◌, ◌≤◌, ◌<◌, [], ◌∷◌, ◌++◌, Bytes, length, drop, ltb, length-drop, length-append,
  append_assoc, ltb→lt, ltb_false→le, ◌⊎◌, inl, inr, ◌≡◌, refl, sym, ap, ◌∙◌, arith,
}
use simple_dns.Common.Memory.{
  ok, ◌>>=◌, patch, patch_behind, patch-nil, length-patch, read, write, write_fits,
}
use simple_dns.Common.Memory.Safe.{Gives, bind-Gives, if-Gives}
use simple_dns.Endian.{put16, get16}
use simple_dns.Endian.Laws.{be16, put16_lem}
use simple_dns.Tlv.Items.{get16_fits}
use simple_dns.Edns.Append.{Response, OptState, opt_fixed, edns_append_opt}
use simple_dns.Edns.Append.Options.{IsOptions, no_option, Written, HasCookies, put_options-Written}

-- What is behind a message after the call: the OPT record, whose RDLENGTH is that of its options.
-- In the message the count of additional records is one higher.
pub record OptAppended (r : Response) (msg tail : Bytes) (blen : ℕ) (out : Bytes × ℕ) : Type 0 where
  pub vs : Bytes
  pub options : IsOptions vs
  pub rest : Bytes
  pub count : ℕ
  pub counted : get16 msg 10 ≡ ok count
  pub whole :
      out.0 ≡ (patch msg 10 (be16 (count + 1)) ++ (opt_fixed r ++ (be16 (length vs) ++ vs))) ++ rest
  pub kept : length out.0 ≡ length (msg ++ tail)
  pub after : out.1 ≡ length msg + 11 + length vs
  pub fits : out.1 ≤ blen

-- Nothing is done where the fixed fields do not fit.
abbrev pub OptResult : Response → Bytes → Bytes → ℕ → Bytes × ℕ → Type 0
OptResult r msg tail blen out =
    ((out ≡ (msg ++ tail, length msg)) × (blen < length msg + 11)) ⊎ OptAppended r msg tail blen out

two_more : (xs : Bytes) → 2 ≤ length xs → (x : ℕ) × (y : ℕ) × (rest : Bytes) × (xs ≡ x ∷ y ∷ rest)
two_more [] h = absurd (omega arith)
two_more (x ∷ []) h = absurd (omega arith)
two_more (x ∷ (y ∷ rest)) h = (x, y, rest, refl)

drop-append_front : (n : ℕ) (xs ys : Bytes) → n ≤ length xs → drop n (xs ++ ys) ≡ drop n xs ++ ys
drop-append_front zero xs ys h = refl
drop-append_front (suc n) [] ys h = absurd (omega arith)
drop-append_front (suc n) (x ∷ xs) ys h = drop-append_front n xs ys (omega arith)

patch-append :
    (xs ys : Bytes) (i : ℕ) (vs : Bytes)
    → i + length vs ≤ length xs
    → patch (xs ++ ys) i vs ≡ patch xs i vs ++ ys
patch-append xs ys zero vs h =
    ap (λ (t : Bytes). vs ++ t) (drop-append_front (length vs) xs ys (omega arith))
    ∙ sym (append_assoc vs (drop (length vs) xs) ys)
patch-append [] ys (suc i) vs h = absurd (omega arith)
patch-append (x ∷ xs) ys (suc i) vs h = ap (◌∷◌ x) (patch-append xs ys i vs (omega arith))

read-append : (xs ys : Bytes) (i : ℕ) → i < length xs → read (xs ++ ys) i ≡ read xs i
unfolding read
read-append [] ys i h = absurd (omega arith)
read-append (x ∷ xs) ys zero h = refl
read-append (x ∷ xs) ys (suc i) h = read-append xs ys i (omega arith)

get16-append : (xs ys : Bytes) (o : ℕ) → o + 2 ≤ length xs → get16 (xs ++ ys) o ≡ get16 xs o
unfolding get16
get16-append xs ys o h =
    rw (read-append xs ys o (omega arith), read-append xs ys (o + 1) (omega arith)) refl

base_size :
    (r : Response) (msg tail t2 : Bytes) (x y : ℕ)
    → drop 9 tail ≡ x ∷ y ∷ t2
    → length (msg ++ (opt_fixed r ++ (x ∷ y ∷ t2))) ≡ length (msg ++ tail)
base_size r msg tail t2 x y e = omega (
  arith,
  length-append msg (opt_fixed r ++ (x ∷ y ∷ t2)),
  length-append msg tail,
  ap length e,
  length-drop 9 tail,
)

module _ (r : Response) (msg t2 : Bytes) (x y blen : ℕ) (s : OptState)
    (w : Written (msg ++ (opt_fixed r ++ (x ∷ y ∷ t2))) (length msg + 9 + 2) blen s) where
  abbrev unused : Bytes
  unused = drop (length w.vs) t2

  -- The buffer behind the message: the options stand behind the length field.
  options_at : s.buf ≡ msg ++ (opt_fixed r ++ (x ∷ y ∷ (w.vs ++ unused)))
  options_at =
      let head : Bytes = msg ++ (opt_fixed r ++ (x ∷ y ∷ [])) in
      let split : msg ++ (opt_fixed r ++ (x ∷ y ∷ t2)) ≡ head ++ t2 =
        sym (append_assoc msg (opt_fixed r ++ (x ∷ y ∷ [])) t2) in
      let at : length msg + 9 + 2 ≡ length head =
        omega (arith, length-append msg (opt_fixed r ++ (x ∷ y ∷ []))) in
      w.here
      ∙ ap (λ (b : Bytes). patch b (length msg + 9 + 2) w.vs) split
      ∙ ap (λ (i : ℕ). patch (head ++ t2) i w.vs) at
      ∙ patch_behind head t2 w.vs
      ∙ append_assoc msg (opt_fixed r ++ (x ∷ y ∷ [])) (w.vs ++ unused)

  abbrev record_at : Bytes
  record_at = opt_fixed r ++ (be16 (length w.vs) ++ (w.vs ++ unused))

  -- RDLENGTH
  put16-length : put16 s.buf (length msg + 9) s.rdata_len ≡ ok (msg ++ record_at)
  put16-length =
      let n : Bytes = be16 (length w.vs) in
      let behind : Bytes = x ∷ y ∷ (w.vs ++ unused) in
      let front : Bytes = msg ++ opt_fixed r in
      let at : length msg + 9 ≡ length front = omega (arith, length-append msg (opt_fixed r)) in
      let room : length msg + 9 + 2 ≤ length s.buf =
        omega (arith, ap length options_at, length-append msg (opt_fixed r ++ behind)) in
      ap (put16 s.buf (length msg + 9)) w.size
      ∙ put16_lem s.buf (length msg + 9) (length w.vs) room
      ∙ ap ok (
          ap (λ (b : Bytes). patch b (length msg + 9) n)
            (options_at ∙ sym (append_assoc msg (opt_fixed r) behind))
          ∙ ap (λ (i : ℕ). patch (front ++ behind) i n) at
          ∙ patch_behind front behind n
          ∙ append_assoc msg (opt_fixed r) (n ++ (w.vs ++ unused)))

  length-record_at :
      blen ≤ length (msg ++ (opt_fixed r ++ (x ∷ y ∷ t2))) → length record_at ≡ 11 + length t2
  length-record_at enough = omega (
    arith,
    w.fits,
    length-append w.vs unused,
    length-drop (length w.vs) t2,
    length-append msg (opt_fixed r ++ (x ∷ y ∷ t2)),
  )

-- The two writes that follow the options.
finish :
    (r : Response) (msg tail t2 : Bytes) (x y blen : ℕ) (s : OptState)
    → drop 9 tail ≡ x ∷ y ∷ t2
    → 12 ≤ length msg
    → blen ≤ length (msg ++ tail)
    → Written (msg ++ (opt_fixed r ++ (x ∷ y ∷ t2))) (length msg + 9 + 2) blen s
    → Gives (OptResult r msg tail blen) (
        put16 s.buf (length msg + 9) s.rdata_len >>= λ buf2.
        get16 buf2 10 >>= λ arcount. put16 buf2 10 (arcount + 1) >>= λ buf3. ok (buf3, s.rdata_off))
finish r msg tail t2 x y blen s e header enough w =
    let z : Bytes = record_at r msg t2 x y blen s w in
    let size : length (msg ++ (opt_fixed r ++ (x ∷ y ∷ t2))) ≡ length (msg ++ tail) =
      base_size r msg tail t2 x y e in
    let (count, counted) = get16_fits msg 10 header in
    let counts : Bytes = be16 (count + 1) in
    let second : get16 (msg ++ z) 10 ≡ ok count = get16-append msg z 10 header ∙ counted in
    let third : put16 (msg ++ z) 10 (count + 1) ≡ ok (patch msg 10 counts ++ z) =
      put16_lem (msg ++ z) 10 (count + 1) (omega (arith, length-append msg z))
      ∙ ap ok (patch-append msg z 10 counts header) in
    let kept : length (patch msg 10 counts ++ z) ≡ length (msg ++ tail) = omega (
      arith,
      length-append (patch msg 10 counts) z,
      length-patch msg 10 counts header,
      length-record_at r msg t2 x y blen s w (omega (arith, size)),
      length-append msg (opt_fixed r ++ (x ∷ y ∷ t2)),
      size,
    ) in
    rw (put16-length r msg t2 x y blen s w, second, third)
      (inr (record {
        vs = w.vs;
        options = w.options;
        rest = unused r msg t2 x y blen s w;
        count = count;
        counted = counted;
        whole = sym (
            append_assoc (patch msg 10 counts) (opt_fixed r ++ (be16 (length w.vs) ++ w.vs))
              (unused r msg t2 x y blen s w));
        kept = kept;
        after = omega (arith, w.next);
        fits = omega (arith, w.next, w.fits);
      }))

-- Behind a message with its header `edns_append_opt` always ends with a new offset. Where the fixed
-- fields fit, it appends one OPT record whose RDLENGTH is that of the options behind it, within `blen`, and
-- adds 1 to ARCOUNT, with wrap-around; the rest of the message is as it was. Otherwise it changes nothing. The
-- cookies have their sizes, and the buffer at most 65535 bytes.
pub edns_append_opt-OptResult :
    (r : Response) (msg tail : Bytes) (blen : ℕ)
    → 12 ≤ length msg
    → blen ≤ length (msg ++ tail)
    → blen ≤ 0xffff
    → HasCookies r
    → Gives (OptResult r msg tail blen) (edns_append_opt r (msg ++ tail) (length msg) blen)
unfolding edns_append_opt
edns_append_opt-OptResult r msg tail blen header enough small sizes =
    if-Gives (OptResult r msg tail blen) (ltb blen (length msg + 11)) _ _
      (λ e. inl (refl, ltb→lt _ _ e))
      (λ e.
        let room : length msg + 11 ≤ blen = ltb_false→le _ _ e in
        let (x, y, t2, split) =
          two_more (drop 9 tail) (omega (arith, length-drop 9 tail, length-append msg tail)) in
        let first : write (msg ++ tail) (length msg) (opt_fixed r)
            ≡ ok (msg ++ (opt_fixed r ++ (x ∷ y ∷ t2))) =
          write_fits (msg ++ tail) (length msg) (opt_fixed r) (omega arith)
          ∙ ap ok (
              patch_behind msg tail (opt_fixed r)
              ∙ ap (λ (t : Bytes). msg ++ (opt_fixed r ++ t)) split) in
        let base : Bytes = msg ++ (opt_fixed r ++ (x ∷ y ∷ t2)) in
        rw first (
          bind-Gives (Written base (length msg + 9 + 2) blen) (OptResult r msg tail blen) _ _
            (put_options-Written base (length msg + 9 + 2) blen
              (omega (arith, base_size r msg tail t2 x y split)) small r (length msg + 9) sizes
              (record { buf = base; rdata_off = length msg + 9 + 2; rdata_len = 0 })
              (record {
                vs = [];
                options = no_option;
                here = sym (patch-nil base (length msg + 9 + 2));
                next = omega arith;
                size = refl;
                fits = omega arith;
              }))
            (λ s w. finish r msg tail t2 x y blen s split header enough w)))
