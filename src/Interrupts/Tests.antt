-- ===== src/Interrupts/Tests.antt =====
-- Runs of kernel/handlers.c, and its theorems at concrete tables.
use ne_xs_operate_system.Base.{
  ℕ, ◌+◌, ◌≡◌, refl, Option, none, some, List, [], ◌∷◌, ◌++◌, arith, replicate, ◌==◌, if◌then◌else◌,
  get_or, ltb,
}
use ne_xs_operate_system.Interrupts.{
  call, outb, irq_install_handler, pic_send_eoi, irq_common_handler,
}
use ne_xs_operate_system.Interrupts.Dispatch.{work_of, irq_install_handler_lem}

abbrev no_handlers : List (Option ℕ)
no_handlers = replicate 16 none

-- A handler on line 12, whose interrupt goes through both controllers.
irq_run :
    irq_common_handler (irq_install_handler no_handlers 12 (some 0x5000)) 44
    ≡ call 0x5000 ∷ outb 0xa0 0x20 ∷ outb 0x20 0x20 ∷ []
unfolding irq_common_handler irq_install_handler pic_send_eoi
irq_run = refl

irq_install_handler_lem_example :
    irq_common_handler (irq_install_handler no_handlers 12 (some 0x5000)) (12 + 32)
    ≡ work_of 12 (if 12 == 12 then some 0x5000 else get_or no_handlers 12 none)
      ++ ((if ltb 12 8 then [] else outb 0xa0 0x20 ∷ []) ++ outb 0x20 0x20 ∷ [])
irq_install_handler_lem_example =
    irq_install_handler_lem no_handlers 12 12 0x5000 refl (omega arith) (omega arith)
