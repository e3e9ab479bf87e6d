-- ===== src/Tests/Machine.antt =====
-- The descriptor table over a driver that numbers its descriptors from 3 and counts them.
use multi_resource_isolation.Prelude.{ℕ, ◌+◌, ◌≡◌, refl, true, none, some, [], ◌∷◌}
use multi_resource_isolation.Machine.{
  Driver, Machine, machine_init, machine_fini, msr_read, msr_write, with_fd,
}
use multi_resource_isolation.Machine.Table.{IsSized, machine-IsSized}

abbrev counting : Driver
counting = record {
  World = ℕ;
  open_msr = λ core n. (some (n + 3), n + 1);
  close_fd = λ fd n. n;
  read_word = λ fd reg n. (some reg, n);
  write_word = λ fd reg v n. (true, n);
}

-- Two cores, of which core 1 has been opened.
abbrev one_open : Machine counting
one_open = record { msr_fd = some (none ∷ some 3 ∷ []); maxcores = 2; world = 1 }

machine-IsSized_example :
    IsSized counting (machine_init counting true 7 one_open).1
    × IsSized counting (machine_fini counting one_open).1
    × IsSized counting (msr_read counting 0 0xC8F one_open).1
    × IsSized counting (msr_write counting 0 0xC8F 1 one_open).1
machine-IsSized_example = machine-IsSized counting true 7 0 0xC8F 1 one_open refl

-- A core that does not exist is refused and no device is opened.
read_far : (msr_read counting 2 0xC8F one_open).1 ≡ one_open
unfolding msr_read with_fd
read_far = refl
