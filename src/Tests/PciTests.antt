-- ===== src/Tests/PciTests.antt =====
-- drivers/pci/pci.c on a bus where nothing but the functions 0 and 3 of the first device answer.
use mint.Base.{ℕ, ◌+◌, ◌<◌, [], ◌∷◌, some, ◌≡◌, refl, arith, ◌==◌, if◌then◌else◌}
use mint.Ring.{list_add, list_runtime_init}
use mint.Ring.Add.{list_runtime_init-IsRing}
use mint.Pci.{
  PciHeader, Pci, config_address, pci_driver_match_device, match_from, compare_filter, pci_detect,
}
use mint.Pci.Match.{identifiers, stored, first_fit, pci_driver_match_device-first_fit}
use mint.Pci.Listed.{IsPresent, Lists}
use mint.Pci.Detect.{pci_detect-Lists}
use mint.Tests.RingTests.{blank, two_elements, two_elements-IsRing}

-- What the ports answer.
abbrev answer : ℕ → ℕ → ℕ
answer address port =
    if address == 0x80000000
    then 0x10008086
    else if address == 0x80000300
    then 0x20008086
    else if address == 0x8000000C
    then 0x800000
    else 0xFFFFFFFF

address_run : config_address 3 5 2 16 ≡ 0x80032A10
unfolding config_address
address_run = refl

abbrev header : PciHeader
header = record {
  vendor_id = 0x8086;
  device_id = 0x1000;
  command = 0;
  status = 0;
  revision = 0;
  prog_if = 0;
  subclass = 6;
  class = 1;
  cache_sz = 0;
  latency = 0;
  type = 0;
  bist = 0;
  words = λ _. 0;
}

abbrev two_devices : Pci
two_devices = record {
  links = two_elements;
  devices = λ x.
      if x == 20
      then record { bus = 0; device = 1; function = 0; header = record header { device_id = 7 } }
      else record { bus = 0; device = 2; function = 0; header = header };
  pci_device_list = 100;
  pci_driver_list = 200;
  allocated = 2;
}

match_run :
    pci_driver_match_device 3 two_devices (some (stored (identifiers 0x8085 0xFFF)))
    ≡ some (some 10)
unfolding pci_driver_match_device match_from compare_filter list_add list_runtime_init
match_run = refl

pci_driver_match_device-first_fit_example :
    pci_driver_match_device 3 two_devices (some (stored (identifiers 0x8085 0xFFF)))
    ≡ some (first_fit two_devices.devices (identifiers 0x8085 0xFFF) (20 ∷ 10 ∷ []))
pci_driver_match_device-first_fit_example =
    pci_driver_match_device-first_fit 3 two_devices (identifiers 0x8085 0xFFF) (20 ∷ 10 ∷ [])
      two_elements-IsRing (omega arith)

abbrev no_devices : Pci
no_devices = record two_devices { links = list_runtime_init blank 100; allocated = 0 }

abbrev block : ℕ → ℕ
block i = 1000 + i

pci_detect-Lists_example :
    Lists answer block
      (pci_detect answer block no_devices)
      (λ b d f. (b < 256) × (d < 32) × IsPresent answer b d f)
pci_detect-Lists_example =
    pci_detect-Lists answer block (λ i j ne e. ne (omega (arith, e))) no_devices
      (λ i e. absurd (omega (arith, e))) (list_runtime_init-IsRing blank 100)
