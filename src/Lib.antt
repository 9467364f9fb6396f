-- ===== src/Lib.antt =====
-- Verification of the firmware of a water-intrusion and temperature sensor on the CH582.
--
-- The firmware answers Modbus requests on a UART and keeps its settings in the data flash. A byte
-- from the UART or a tick of the timer is an interrupt that changes the slave context (src/modbus.c);
-- when a frame is complete, liblightmodbus parses it and calls `register_callback` for each
-- register, which goes to the register banks (src/modbus/). Settings are items of the key-value
-- store on four flash pages (src/storage.c), whose records carry a check sum (src/utils/crc.c).
--
-- Files:
--   Common      conditionals, C arrays as lists, fixed-width arithmetic, bits of bytes.
--   Crc         src/utils/crc.c: `crc_check` and the function of each width. Detection: what the check
--               sum of the storage detects.
--   Modbus      Types: what liblightmodbus passes. Regs: src/modbus/regs.c. Iregs: src/modbus/iregs.c.
--               Inputs: src/modbus/discrete_input.c. Coils: src/modbus/coils.c. Callback:
--               `register_callback`. Slave: the context and the interrupts of src/modbus.c.
--               Below Regs, Iregs, Inputs and Slave stand their properties.
--   Storage     src/storage.c, from the bottom up: Pages, Items, Search, Scan, Api. Flash: what is
--               relied on in the flash. Frame: what no call changes. Log: a page as the list of the
--               items on it, which appending, finding and loading are compared with.
--   Config      src/configtool.c: the settings as bytes over the storage. Laws: getters after an
--               update; Updates: sequences of updates.
--   Crc16       src/utils/crc16.c: the table driven CRC. Bitwise: it is the bit by bit one.
--   Onewire     src/onewire.c. Bus: slots, bytes, reset and presence on the 1-Wire line. RomSearch:
--               `Search_ROM`; Tree, Order and Codes say what it should find, Slaves what it relies on,
--               Stack, Step and Pass follow it bit by bit, and Complete puts the passes together;
--               Simulation is a line with chips on it, for the tests. Search: `onewire_search` and its
--               callers; Outcome says that its loop ends and what a call leaves.
--               Checksum: `onewire_crc8`. Registers: the commands to a chip; Chip says what they rely
--               on, Change and Offset what a change of the parameters does.
--   Display     src/display.c: the lines of text. Lines: the lines from the top to the bottom; Shown:
--               what the texts written leave there.
--   Oled        src/oled.c: the frame buffer. Pixels: points; Areas: clearing; Bytes: bits of its bytes.
--   Firmware    the polling of src/modbus.c over the state of the whole firmware. Sensor:
--               src/sensor.c. Polling, Access, Expiry: properties that involve several modules.
--
-- How the code is written here. A function of the source keeps its name. A function that returns
-- -1 is a function from the state to an optional result and the state it leaves. `uint8_t`,
-- `uint16_t` and `uint32_t` are natural numbers, reduced where the source stores into the type. A
-- C array is a list; a store outside it changes nothing, and a theorem states where none happens.
-- The flash is the record `Eeprom` of the vendor's three commands; `IsFlash` says what they do. The
-- hooks of the register callback are functions on the whole state.
--
-- Loops run on fuel where they are not over a list: 65 for the items of a page, since an item takes
-- four bytes at least and no header can be read from offset 251 on; 4 for a round over the pages; 2
-- for the copies of at most a page; 64 for the bits of a 1-Wire search.
--
-- The parser of liblightmodbus (`modbusParseRequestRTU`) is a function from the address, the frame and
-- the state to an error, a response and a state, since it calls the register callback. An interrupt
-- comes between two calls of the main loop, not within one.
--
-- Not modelled: log output and the vendor's drivers; the fonts of the OLED driver and its start, the
-- analogue input, the version text, MD5 and the start in Main.c, which do not bear on the
-- above.
pub mod Common
pub mod Crc
pub mod Crc16
pub mod Modbus
pub mod Storage
pub mod Config
pub mod Firmware
pub mod Onewire
pub mod Display
pub mod Oled
