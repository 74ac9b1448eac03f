-- ===== src/Devicetree/Probe.antt =====
-- What a probe registers.
use csel.Prelude.{
  ℕ, suc, ◌+◌, ◌<◌, ◌≡◌, ◌≢◌, refl, sym, subst, ◌⊎◌, inl, inr, List, [], ◌∷◌, ◌++◌, map, true,
  false, Bool-cases, if◌then◌else◌, Option, some, length, length-append, replicate, arith, ℤ, pos,
  eqb_ℤ, append_assoc,
}
use csel.Cstd.{Outcome, ok, and_then}
use csel.Devicetree.Bounds.{IsSound}
use csel.Devicetree.Children.{
  names, fresh, count_on, count_off, names_off, all_devices, all_devices-IsSound,
}
use csel.Devicetree.{
  Child, is_on, count_device_on, children_of, Priv, blank, PrivData, update, register_children,
  Answers, skeleton_probe, upto, skeleton_remove,
}

update_next :
    (f : Priv → Priv) (done rest : List Priv) (p : Priv)
    → update f (done ++ p ∷ rest) (length done) ≡ ok (done ++ f p ∷ rest)
unfolding update
update_next f [] rest p = refl
update_next f (q ∷ done) rest p = rw (update_next f done rest p) refl

register_on :
    (answer : ℕ → ℤ) (child : Child) (children : List Child) (done rest : List Priv)
    → is_on child ≡ true
    → register_children answer (child ∷ children) (length done) (done ++ blank ∷ rest) ≡ (
        let later =
          register_children answer children
            (length done + 1)
            (done ++ fresh child.full_name ∷ rest) in
        if eqb_ℤ (answer (length done)) (pos 0)
        then and_then later (λ (ret, privs, registered). ok (ret, privs, length done ∷ registered))
        else ok (answer (length done), done ++ fresh child.full_name ∷ rest, []))
unfolding register_children
register_on answer child children done rest on =
    rw
      (
        register_children,
        on,
        update_next (λ p. record p { name = some child.full_name }) done rest blank,
      )
      refl

register_off :
    (answer : ℕ → ℤ) (child : Child) (children : List Child) (i : ℕ) (privs : List Priv)
    → is_on child ≡ false
    → register_children answer (child ∷ children) i privs
      ≡ register_children answer children i privs
unfolding register_children
register_off answer child children i privs off = rw (register_children, off) refl

-- The loop, from a place where the devices that were made fill the front of the array.
abbrev Outcomes :
    (ℕ → ℤ) → List Child → (i : ℕ) → (done : List Priv) → Outcome (ℤ × List Priv × List ℕ) → Type 0
Outcomes answer children i done result =
    let n = count_device_on children in
    (result ≡ ok (pos 0, done ++ map fresh (names children), upto i n))
    ⊎ ((k : ℕ) × (privs : List Priv) × (result ≡ ok (answer (i + k), privs, upto i k))
        × (k < n)
        × (answer (i + k) ≢ pos 0))

abbrev FromHere : (ℕ → ℤ) → List Child → List Priv → Type 0
FromHere answer children done = Outcomes answer children (length done) done (
    register_children answer children (length done)
      (done ++ replicate (count_device_on children) blank))

-- A device more in front of those that the rest of the loop makes.
one_more :
    (answer : ℕ → ℤ) (child : Child) (children : List Child) (i : ℕ) (done : List Priv)
    (later : Outcome (ℤ × List Priv × List ℕ))
    → is_on child ≡ true
    → Outcomes answer children (i + 1) (done ++ fresh child.full_name ∷ []) later
    → Outcomes answer
        (child ∷ children)
        i
        done
        (and_then later λ (ret, privs, registered). ok (ret, privs, i ∷ registered))
unfolding names upto count_device_on
one_more answer child children i done later on (inl all) =
    inl (rw (all, on) (rw (append_assoc done (fresh child.full_name ∷ []) _) refl))
one_more answer child children i done later on (inr (k, privs, stops, below, bad)) = inr (
  suc k,
  privs,
  rw (stops, shift) refl,
  rw on (omega arith),
  subst (λ j. answer j ≢ pos 0) shift bad,
)
  where
    shift : i + 1 + k ≡ i + suc k
    shift = omega arith

register_skip :
    (answer : ℕ → ℤ) (child : Child) (children : List Child) (done : List Priv)
    → is_on child ≡ false
    → FromHere answer children done
    → FromHere answer (child ∷ children) done
register_skip answer child children done off later =
    rw
      (register_off answer child children (length done)
        (done ++ replicate (count_device_on (child ∷ children)) blank) off)
      (rw (count_off child children off, names_off child children off) later)

nonzero : (x : ℤ) → eqb_ℤ x (pos 0) ≡ false → x ≢ pos 0
nonzero x bad h = let e = rw h at bad in cc

-- A first child that is on, where the rest of the loop is known.
register_first :
    (answer : ℕ → ℤ) (child : Child) (children : List Child) (done : List Priv)
    → is_on child ≡ true
    → FromHere answer children (done ++ fresh child.full_name ∷ [])
    → FromHere answer (child ∷ children) done
unfolding upto
register_first answer child children done on later =
    subst (Outcomes answer (child ∷ children) (length done) done) (sym start)
      (elim (Bool-cases (eqb_ℤ (answer (length done)) (pos 0))) [
        | inl zero_answer ↦
            rw zero_answer (one_more answer child children (length done) done _ on later')
        | inr bad ↦ rw bad (
            inr (
              0,
              done ++ fresh child.full_name ∷ replicate n blank,
              rw here refl,
              rw (count_on child children on) (omega arith),
              rw here (nonzero _ bad),
            ))
      ])
  where
    done' : List Priv
    done' = done ++ fresh child.full_name ∷ []

    n : ℕ
    n = count_device_on children

    start :
        register_children answer
          (child ∷ children)
          (length done)
          (done ++ replicate (count_device_on (child ∷ children)) blank)
        ≡ (let later =
              register_children answer children
                (length done + 1)
                (done ++ fresh child.full_name ∷ replicate n blank) in
            if eqb_ℤ (answer (length done)) (pos 0)
            then and_then later
                (λ (ret, privs, registered). ok (ret, privs, length done ∷ registered))
            else ok (answer (length done), done ++ fresh child.full_name ∷ replicate n blank, []))
    start =
        rw (count_on child children on)
          (register_on answer child children done (replicate n blank) on)

    later' : Outcomes answer children (length done + 1) (done ++ fresh child.full_name ∷ []) (
        register_children answer children
          (length done + 1)
          (done ++ fresh child.full_name ∷ replicate n blank))
    later' =
        subst
          (λ privs.
            Outcomes answer children (length done + 1) done'
              (register_children answer children (length done + 1) privs))
          (append_assoc done (fresh child.full_name ∷ []) (replicate n blank))
          (subst
            (λ i.
              Outcomes answer children i done'
                (register_children answer children i (done' ++ replicate n blank)))
            (length-append done (fresh child.full_name ∷ [])) later)

    here : length done + 0 ≡ length done
    here = omega arith

register-Outcomes :
    (answer : ℕ → ℤ) (children : List Child) (done : List Priv) → FromHere answer children done
unfolding register_children count_device_on names upto
register-Outcomes answer [] done = inl refl
register-Outcomes answer (child ∷ children) done = elim (Bool-cases (is_on child)) [
  | inl on ↦
      register_first answer child children done on
        (register-Outcomes answer children (done ++ fresh child.full_name ∷ []))
  | inr off ↦ register_skip answer child children done off (register-Outcomes answer children done)
]

-- Where both allocations succeed, a probe runs to its end without leaving its array, whatever the
-- node's children are: it returns 0, with a structure for each child whose attribute is on, in
-- order, under its name and with an empty text in an array of 1024 bytes, and has registered
-- exactly the devices that a removal deregisters; or it returns the error that misc_register
-- answers for a device k, with the devices before k registered.
pub probe_registers :
    (a : Answers) (dt_node : Option (List Child))
    → a.priv_data ≡ true
    → a.calloc ≡ true
    → let children = children_of dt_node in
      let all = all_devices children in
      ((skeleton_probe a dt_node ≡ ok (pos 0, some all, skeleton_remove all)) × IsSound all)
      ⊎ ((k : ℕ) × (d : PrivData) × (skeleton_probe a dt_node ≡ ok (a.register k, some d, upto 0 k))
          × (k < count_device_on children)
          × (a.register k ≢ pos 0))
unfolding skeleton_probe skeleton_remove
probe_registers a dt_node got calloc =
    elim (register-Outcomes a.register (children_of dt_node) []) [
      | inl all ↦ inl (rw (got, calloc, all) refl, all_devices-IsSound (children_of dt_node))
      | inr (k, privs, stops, below, bad) ↦
          let z : 0 + k ≡ k = omega arith in
          inr (
            k,
            record { nb_devices = count_device_on (children_of dt_node); priv = privs },
            rw (got, calloc, stops, z) refl,
            below,
            subst (λ j. a.register j ≢ pos 0) z bad,
          )
    ]
