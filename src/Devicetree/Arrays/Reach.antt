-- ===== src/Devicetree/Arrays/Reach.antt =====
-- Which of the node's devices can be used.
use csel.Prelude.{
  ℕ, zero, suc, ◌+◌, ◌*◌, ◌≤◌, ◌≡◌, refl, ap, subst, ◌∙◌, List, [], ◌∷◌, ◌++◌, true, false,
  Bool-cases, inl, inr, length, length-append, append_assoc, replicate, Option, some, ℤ, pos, ◌-ℤ◌,
  arith,
}
use csel.Cstd.{Bytes, ok, fault, over_read, buffer_overflow}
use csel.Devicetree.{Child, is_on, count_device_on, children_of}
use csel.Devicetree.Children.{count_on, count_off}
use csel.Devicetree.Arrays.{
  put_minor, register_children, skeleton_probe, skeleton_read, skeleton_write,
}
use csel.MultiDevice.{Devices, Answers, first_minor, allocate}
use csel.MultiDevice.Index.{IsSound, other_devices_fault}

put_next :
    (minor : ℤ) (done rest : List ℤ) (m : ℤ)
    → put_minor (done ++ m ∷ rest) (length done) minor ≡ ok (done ++ minor ∷ rest)
unfolding put_minor
put_next minor [] rest m = refl
put_next minor (q ∷ done) rest m = rw (put_next minor done rest m) refl

-- The minor numbers that misc_register gives from the device i on.
unfoldable pub minors : (ℕ → ℤ × ℤ) → (i n : ℕ) → List ℤ
minors answer i zero = []
minors answer i (suc n) = (answer i).1 ∷ minors answer (i + 1) n

register_on :
    (answer : ℕ → ℤ × ℤ) (child : Child) (children : List Child) (done rest : List ℤ)
    → is_on child ≡ true
    → (answer (length done)).0 ≡ pos 0
    → register_children answer (child ∷ children) (length done) (done ++ pos 0 ∷ rest)
      ≡ register_children answer children
          (length done + 1)
          (done ++ (answer (length done)).1 ∷ rest)
unfolding register_children
register_on answer child children done rest on taken =
    rw (register_children, on, put_next (answer (length done)).1 done rest (pos 0), taken) refl

register_off :
    (answer : ℕ → ℤ × ℤ) (child : Child) (children : List Child) (i : ℕ) (mymisc : List ℤ)
    → is_on child ≡ false
    → register_children answer (child ∷ children) i mymisc
      ≡ register_children answer children i mymisc
unfolding register_children
register_off answer child children i mymisc off = rw (register_children, off) refl

-- The loop, where every device is taken, from a place where those before fill the front of the array.
register_taken :
    (answer : ℕ → ℤ × ℤ)
    → ((i : ℕ) → (answer i).0 ≡ pos 0)
    → (children : List Child) (done : List ℤ)
    → register_children answer children
        (length done)
        (done ++ replicate (count_device_on children) (pos 0))
      ≡ ok (pos 0, done ++ minors answer (length done) (count_device_on children))
unfolding register_children count_device_on minors
register_taken answer taken [] done = refl
register_taken answer taken (child ∷ children) done = elim (Bool-cases (is_on child)) [
  | inl on ↦
      let n = count_device_on children in
      let m = (answer (length done)).1 in
      let made = done ++ m ∷ [] in
      let later =
        subst
          (λ k.
            register_children answer children k (made ++ replicate n (pos 0))
            ≡ ok (pos 0, made ++ minors answer k n))
          (length-append done (m ∷ [])) (register_taken answer taken children made) in
      let moved =
        rw
          (
            append_assoc done (m ∷ []) (replicate n (pos 0)),
            append_assoc done (m ∷ []) (minors answer (length done + 1) n),
          )
          at later in
      rw (count_on child children on) (
        register_on answer child children done (replicate n (pos 0)) on (taken (length done))
        ∙ moved)
  | inr off ↦ rw (count_off child children off) (
      register_off answer child children (length done) _ off
      ∙ register_taken answer taken children done)
]

length-replicate : (n : ℕ) (x : ℕ) → length (replicate n x) ≡ n
length-replicate zero x = refl
length-replicate (suc n) x = ap suc (length-replicate n x)

first_minor-minors :
    (answer : ℕ → ℤ × ℤ) (n : ℕ) → 1 ≤ n → first_minor (minors answer 0 n) ≡ ok (answer 0).1
unfolding minors
first_minor-minors answer zero h = absurd (omega arith)
first_minor-minors answer (suc n) h = refl

-- Where the allocations succeed and misc_register takes every device, a probe of a node with n
-- children that are on, n at least 1, returns 0; then a device whose minor number lies k below
-- that of the first, where n is at most 1024 k, reads outside of an array whenever it is read,
-- and writes outside of one whenever 1 to 1023 bytes that can be copied as a whole are written.
pub later_children_fault :
    (a : Answers) (answer : ℕ → ℤ × ℤ) (dt_node : Option (List Child)) (k count ppos left : ℕ)
    (bytes : Bytes)
    → a.mymisc ≡ true
    → a.buffer ≡ true
    → a.sizes ≡ true
    → ((i : ℕ) → (answer i).0 ≡ pos 0)
    → 1 ≤ count_device_on (children_of dt_node)
    → count_device_on (children_of dt_node) ≤ k * 1024
    → 1 ≤ length bytes
    → length bytes ≤ 1023
    → (devs : Devices) × (skeleton_probe a answer dt_node ≡ ok (pos 0, some devs))
      × (skeleton_read devs ((answer 0).1 -ℤ pos k) false count ppos left ≡ fault over_read)
      × (skeleton_write devs ((answer 0).1 -ℤ pos k) bytes ppos 0 ≡ fault buffer_overflow)
unfolding skeleton_probe
later_children_fault a answer dt_node k count ppos left bytes got buffer sizes taken some_on far
      some_bytes fits =
    let n = count_device_on (children_of dt_node) in
    let devs : Devices = record {
      global_buffer = replicate (n * 1024) 0;
      buffer_size = replicate n 0;
      offset_minor = (answer 0).1;
    } in
    let sound : IsSound n devs = record {
      room = length-replicate (n * 1024) 0;
      sizes = length-replicate n 0;
    } in
    let (reads, writes) =
      other_devices_fault n k devs count ppos left bytes sound far some_bytes fits in
    (
      devs,
      rw
          (
            got,
            register_taken answer taken (children_of dt_node) [],
            first_minor-minors answer n some_on,
            allocate,
            buffer,
            sizes,
          )
          refl,
      reads,
      writes,
    )
