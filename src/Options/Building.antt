-- ===== src/Options/Building.antt =====
-- The list of options under construction, against the list of bytes that it stands for.
use qo_smos.Prelude.{
  ℕ, zero, suc, ◌+◌, ◌*◌, ◌%◌, ◌^◌, ◌≤◌, ◌<◌, ◌≡◌, ◌⊎◌, ◌↔◌, ◌∙◌, ap, false, inl, inr, refl, List,
  [], ◌∷◌, ◌++◌, none, some, arith, ltb, length, take, drop, length-append, length-take,
  length-drop, Bool-cases, append_assoc,
}
use qo_smos.Options.{
  TcpOptions, TcpOption, max_tcp_option_bytes, option_bytes, tcp_options_append, num_sack_blocks,
}

module _ {ℓ} {A : Type ℓ} where
  take-prefix : (xs ys : List A) (n : ℕ) → n ≡ length xs → take n (xs ++ ys) ≡ xs
  take-prefix [] ys zero e = refl
  take-prefix [] ys (suc n) e = absurd (omega (arith, e))
  take-prefix (x ∷ xs) ys zero e = absurd (omega (arith, e))
  take-prefix (x ∷ xs) ys (suc n) e = ap (λ t. x ∷ t) (take-prefix xs ys n (omega (arith, e)))

-- The array has its size, and the length stays in it.
pub record IsBlock (options : TcpOptions) : Type 0 where
  pub size : length options.bytes ≡ max_tcp_option_bytes
  pub room : options.length ≤ max_tcp_option_bytes

-- The bytes in use.
abbrev pub contents : TcpOptions → List ℕ
contents options = take options.length options.bytes

-- What an append must give: an error exactly when the option does not fit, and otherwise a block
-- whose bytes are the old ones and the option's.
abbrev pub IsAppended : TcpOptions → TcpOption → Type 0
IsAppended options option =
    ((max_tcp_option_bytes < options.length + option.length)
      × (tcp_options_append options option ≡ none))
    ⊎ ((options' : TcpOptions) × (tcp_options_append options option ≡ some options')
        × IsBlock options'
        × (contents options' ≡ contents options ++ option_bytes option))

module _ (options : TcpOptions) (option : TcpOption) (block : IsBlock options)
    (whole : option.length ≤ 2 + length option.bytes) where
  abbrev front : List ℕ
  front = take options.length options.bytes

  abbrev back : List ℕ
  back = drop (options.length + option.length) options.bytes

  length-front : length front ≡ options.length
  length-front = omega (arith, length-take options.length options.bytes, block.size, block.room)

  length-option_bytes : length (option_bytes option) ≡ option.length
  unfolding option_bytes
  length-option_bytes =
      omega (arith, length-take option.length (option.kind ∷ option.length ∷ option.bytes), whole)

  abbrev after : TcpOptions
  after = record {
    bytes = front ++ (option_bytes option ++ back);
    length = (options.length + option.length) % 2 ^ 8;
  }

  -- Appending to a block an option that has all the bytes of its length is an error exactly when it
  -- does not fit into 40 bytes; otherwise it leaves a block with the option's bytes behind the old.
  pub tcp_options_append-IsAppended : IsAppended options option
  unfolding tcp_options_append
  tcp_options_append-IsAppended =
      elim (Bool-cases (ltb max_tcp_option_bytes (options.length + option.length))) [
        | inl full ↦ inl (ground arith, rw (full, tcp_options_append) refl)
        | inr fits ↦ inr (
          after,
          rw (fits, tcp_options_append) refl,
          record {
            size = omega (
              arith,
              length-append front (option_bytes option ++ back),
              length-append (option_bytes option) back,
              length-front,
              length-option_bytes,
              length-drop (options.length + option.length) options.bytes,
              block.size,
              small fits,
            );
            room = omega (arith, small fits);
          },
          ap (λ bytes. take after.length bytes) (append_assoc front (option_bytes option) back)
              ∙ take-prefix (front ++ option_bytes option) back after.length (
                  omega (
                    arith,
                    length-append front (option_bytes option),
                    length-front,
                    length-option_bytes,
                    small fits,
                  )),
        )
      ]
    where
      small :
          ltb max_tcp_option_bytes (options.length + option.length) ≡ false
          → options.length + option.length ≤ max_tcp_option_bytes
      small h = ground arith

-- The SACK block count of an option length is `k` exactly when the length is two bytes and `k`
-- blocks of 8, with at least one block.
pub num_sack_blocks_lem :
    (opt_len k : ℕ) → (num_sack_blocks opt_len ≡ some k) ↔ ((opt_len ≡ 2 + 8 * k) × (1 ≤ k))
unfolding num_sack_blocks
num_sack_blocks_lem opt_len k = (λ h. ground arith, λ h. ground arith)
