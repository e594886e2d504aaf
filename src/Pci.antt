-- ===== src/Pci.antt =====
-- drivers/pci/pci.c and include/drivers/pci/pci.h: the devices of the bus, and the drivers. A device or a
-- driver goes by the address of its `list`. What the ports answer is a parameter: the value of a port, for the
-- address that was written to 0xCF8 last.
pub mod Match
pub mod Listed
pub mod Detect
use mint.Base.{
  ℕ, zero, suc, ◌+◌, ◌-◌, ◌*◌, ◌/◌, ◌%◌, ◌^◌, bit_and, bit_or, Bool, true, false, not, ◌&&◌, ◌||◌,
  Option, none, some, ◌>>=◌, ◌==◌, if◌then◌else◌, ℤ, pos,
}
use mint.Ring.{Links, list_add}

-- The first 16 bytes of `struct pci_header`, which all headers have, and the other 48 as 12 words.
pub record PciHeader : Type 0 where
  pub vendor_id : ℕ
  pub device_id : ℕ
  pub command : ℕ
  pub status : ℕ
  pub revision : ℕ
  pub prog_if : ℕ
  pub subclass : ℕ
  pub class : ℕ
  pub cache_sz : ℕ
  pub latency : ℕ
  pub type : ℕ
  pub bist : ℕ
  pub words : ℕ → ℕ

pub record PciDevice : Type 0 where
  pub bus : ℕ
  pub device : ℕ
  pub function : ℕ
  pub header : PciHeader

pub record PciDeviceFilter : Type 0 where
  pub vendor_id : ℕ
  pub device_id : ℕ
  pub class : ℕ
  pub subclass : ℕ

-- `probe` is `none` for `NULL`, and else what it does to a state.
pub record PciDriver (A : Type 0) : Type 0 where
  pub name : ℕ
  pub filter : Option PciDeviceFilter
  pub probe : Option (ℕ → A → A)

-- The device at every address, the links of both lists with their heads, and the number of devices that have
-- been allocated.
pub record Pci : Type 0 where
  pub links : Links
  pub devices : ℕ → PciDevice
  pub pci_device_list : ℕ
  pub pci_driver_list : ℕ
  pub allocated : ℕ

-- What the loop of `pci_driver_match_device` does with a header: return the device, go on, or return `NULL`.
pub data Verdict : Type 0 where
  accept : Verdict
  skip : Verdict
  refuse : Verdict

abbrev pub verdict_of : Bool → Verdict
verdict_of true = accept
verdict_of false = skip

abbrev pub is_set : ℕ → Bool
is_set n = not (n == 0)

unfoldable pub compare_filter : PciDeviceFilter → PciHeader → Verdict
compare_filter filter header =
    if is_set filter.vendor_id
      && is_set filter.device_id
      && not (is_set filter.class)
      && not (is_set filter.subclass)
    then verdict_of (header.vendor_id == filter.vendor_id && (header.device_id == filter.device_id))
    else if not (is_set filter.vendor_id)
        && not (is_set filter.device_id)
        && is_set filter.class
        && is_set filter.subclass
    then verdict_of (header.class == filter.class && (header.subclass == filter.subclass))
    else if is_set filter.vendor_id
        && is_set filter.device_id
        && is_set filter.class
        && is_set filter.subclass
    then verdict_of (
        header.vendor_id == filter.vendor_id
        && (header.device_id == filter.device_id)
        && (header.class == filter.class)
        && (header.subclass == filter.subclass))
    else refuse

abbrev pub decide : Verdict → ℕ → Option (Option ℕ) → Option (Option ℕ)
decide accept device rest = some (some device)
decide skip device rest = rest
decide refuse device rest = some none

-- The loop, on fuel, from `device` on. The inner `none` is `NULL`.
unfoldable pub match_from : ℕ → Pci → PciDeviceFilter → ℕ → Option (Option ℕ)
match_from zero pci filter device = none
match_from (suc fuel) pci filter device =
    let rest = match_from fuel pci filter (pci.links.next device) in
    if device == pci.pci_device_list
    then some none
    else decide (compare_filter filter (pci.devices device).header) device rest

unfoldable pub pci_driver_match_device : ℕ → Pci → Option PciDeviceFilter → Option (Option ℕ)
pci_driver_match_device fuel pci none = some none
pci_driver_match_device fuel pci (some filter) =
    match_from fuel pci filter (pci.links.next pci.pci_device_list)

abbrev pub probe_device : {A : Type 0} → (ℕ → A → A) → Option ℕ → A → A
probe_device probe none a = a
probe_device probe (some device) a = probe device a

-- `pci_driver_register` with the parts of the driver, each of which may be `NULL`.
abbrev pub register_parts :
    {A : Type 0}
    → ℕ
    → Pci
    → A
    → ℕ
    → ℕ
    → Option PciDeviceFilter
    → Option (ℕ → A → A)
    → Option (ℕ × (Pci × A))
register_parts fuel pci a driver name none probe = some (1, (pci, a))
register_parts fuel pci a driver name (some filter) none = some (1, (pci, a))
register_parts fuel pci a driver name (some filter) (some probe) =
    let pci' = record pci { links = list_add pci.links pci.pci_driver_list driver } in
    if name == 0
    then some (1, (pci, a))
    else (pci_driver_match_device fuel pci' (some filter) >>= λ device.
        some (0, (pci', probe_device probe device a)))

-- With the address of the `list` of the driver: what is returned, the lists, and the state that the
-- driver works on.
unfoldable pub pci_driver_register :
    {A : Type 0} → ℕ → Pci → A → ℕ → PciDriver A → Option (ℕ × (Pci × A))
pci_driver_register fuel pci a driver parts =
    register_parts fuel pci a driver parts.name parts.filter parts.probe

abbrev pub is_multi : PciHeader → Bool
is_multi header = not (bit_and header.type 0x80 == 0)

-- The argument of `outl(0xCF8, ...)`.
unfoldable pub config_address : ℕ → ℕ → ℕ → ℕ → ℕ
config_address bus dev func reg =
    bit_or
      (bit_or (bit_or (bit_or 0x80000000 (bus * 2 ^ 16 % 2 ^ 32)) (dev * 2 ^ 11 % 2 ^ 32))
        (func * 2 ^ 8 % 2 ^ 32))
      (bit_and reg (2 ^ 32 - 4))

module _ (inl : ℕ → ℕ → ℕ) where
  unfoldable pub pci_read_dword : ℕ → ℕ → ℕ → ℕ → ℕ
  pci_read_dword bus dev func reg = inl (config_address bus dev func reg) (0xCFC + bit_and reg 3)

  -- The loop of `pci_probe` stores the words of the header, which are read in turn.
  unfoldable pub pci_probe : ℕ → ℕ → ℕ → Option PciHeader
  pci_probe bus dev func =
      let word : ℕ → ℕ = λ i. pci_read_dword bus dev func (4 * i) in
      if pci_read_dword bus dev func 0 == 0xFFFFFFFF
      then none
      else some (record {
        vendor_id = word 0 % 2 ^ 16;
        device_id = word 0 / 2 ^ 16;
        command = word 1 % 2 ^ 16;
        status = word 1 / 2 ^ 16;
        revision = word 2 % 2 ^ 8;
        prog_if = word 2 / 2 ^ 8 % 2 ^ 8;
        subclass = word 2 / 2 ^ 16 % 2 ^ 8;
        class = word 2 / 2 ^ 24;
        cache_sz = word 3 % 2 ^ 8;
        latency = word 3 / 2 ^ 8 % 2 ^ 8;
        type = word 3 / 2 ^ 16 % 2 ^ 8;
        bist = word 3 / 2 ^ 24;
        words = λ i. word (4 + i);
      })

  -- `block` is what `kzalloc` returns for the devices, in their order.
  module _ (block : ℕ → ℕ) where
    abbrev pub add_device : ℕ → ℕ → ℕ → Pci → PciHeader → Pci
    add_device bus dev func pci header =
        let device = block pci.allocated in
        record pci {
          devices = λ x.
              if device == x
              then record { bus = bus; device = dev; function = func; header = header }
              else pci.devices x;
          links = list_add pci.links pci.pci_device_list device;
          allocated = pci.allocated + 1;
        }

    abbrev pub add_found : ℕ → ℕ → ℕ → Pci → Option PciHeader → Pci
    add_found bus dev func pci none = pci
    add_found bus dev func pci (some header) = add_device bus dev func pci header

    -- The inner loop of `pci_detect` from `func` on, with the number of rounds left.
    unfoldable pub detect_functions : ℕ → ℕ → ℕ → ℕ → Pci → Pci
    detect_functions zero bus dev func pci = pci
    detect_functions (suc n) bus dev func pci =
        detect_functions n bus dev (func + 1) (add_found bus dev func pci (pci_probe bus dev func))

    -- The body of the loop over the devices of a bus.
    abbrev pub detect_device : ℕ → ℕ → Pci → Option PciHeader → Pci
    detect_device bus dev pci none = pci
    detect_device bus dev pci (some header) =
        let first = add_device bus dev 0 pci header in
        if is_multi header then detect_functions 7 bus dev 1 first else first

    unfoldable pub detect_devices : ℕ → ℕ → ℕ → Pci → Pci
    detect_devices zero bus dev pci = pci
    detect_devices (suc n) bus dev pci =
        detect_devices n bus (dev + 1) (detect_device bus dev pci (pci_probe bus dev 0))

    unfoldable pub detect_buses : ℕ → ℕ → Pci → Pci
    detect_buses zero bus pci = pci
    detect_buses (suc n) bus pci = detect_buses n (bus + 1) (detect_devices 32 bus 0 pci)

    unfoldable pub pci_detect : Pci → Pci
    pci_detect pci = detect_buses 256 0 pci
